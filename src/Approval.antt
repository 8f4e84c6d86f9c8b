-- ===== src/Approval.antt =====
-- infra/persistence/approval_gateway.py: an operator's approve, reject and abort of a paused task.
-- The clock's time and the fresh ids are arguments.
pub mod Writes
pub mod Atomic
pub mod Resume
use meta_agent.Common.{
  ℕ, suc, ◌+◌, String, Bool, true, false, Option, none, some, [], List, ◌∷◌, if◌then◌else◌,
}
use meta_agent.Errors.{
  Error, Result, ok, err, illegal_transition, unique_violation, not_awaiting_approval, failure,
}
use meta_agent.Exec.{Exec, pure, raise, lift, continue, ◌>>=◌, ◌>>◌, catch, recover}
use meta_agent.Context.{RequestContext}
use meta_agent.Dict.{put}
use meta_agent.Value.{str}
use meta_agent.RunState.{TaskRunState}
use meta_agent.Task.{Task, TaskState, running, cancelled, is_awaiting}
use meta_agent.TaskRepo
use meta_agent.Db.{
  Db, TaskCheckpoint, OutboxEvent, pending, on_tasks, append_checkpoint, latest_checkpoint,
  enqueue_event, transaction, commit_or,
}
use meta_agent.Format.{decimal, ◌+++◌}
use meta_agent.Gates.{human_decision_key, human_feedback_key}

abbrev with_feedback : Option String → TaskRunState → TaskRunState
with_feedback none s = s
with_feedback (some text) s = record s { data_ = put s.data_ human_feedback_key (str text) }

-- _merge_decision
unfoldable pub merge_decision : TaskRunState → String → Option String → ℕ → TaskRunState
merge_decision snapshot decision feedback sequence = with_feedback feedback (record snapshot {
  awaiting_approval = false;
  sequence = sequence;
  data_ = put snapshot.data_ human_decision_key (str decision);
})

-- what the two `except` clauses of `_resolve` make of an exception
abbrev pub translate : Error → Error
translate illegal_transition = not_awaiting_approval
translate unique_violation = not_awaiting_approval
translate e = e

-- the `except` clause of `abort`
abbrev translate_illegal : Error → Error
translate_illegal illegal_transition = not_awaiting_approval
translate_illegal e = e

-- `assert refreshed is not None`
abbrev asserted : Option Task → Exec Db Task
asserted none = raise (failure "AssertionError")
asserted (some t) = pure t

abbrev paused : Option Task → Exec Db Task
paused none = raise not_awaiting_approval
paused (some t) = if is_awaiting t.state then pure t else raise not_awaiting_approval

abbrev present : Option TaskCheckpoint → Exec Db TaskCheckpoint
present none = raise not_awaiting_approval
present (some c) = pure c

module _ (bound : Option RequestContext) (topic checkpoint_id event_id : String) (now : ℕ) where
  -- the checkpoint that the worker resumes from
  unfoldable pub resumed :
      String → String → String → Option String → TaskCheckpoint → TaskCheckpoint
  unfolding merge_decision
  resumed tenant_id task_id decision feedback c = record {
    checkpoint_id = checkpoint_id;
    task_id = task_id;
    tenant_id = tenant_id;
    trace_id = c.trace_id;
    node_name = c.node_name;
    sequence = c.sequence + 1;
    state_snapshot = merge_decision c.state_snapshot decision feedback (c.sequence + 1);
    created_at = now;
  }

  -- the event that puts the task on the queue again
  unfoldable pub resume_event : String → String → Task → TaskCheckpoint → OutboxEvent
  resume_event tenant_id task_id current c = record {
    event_id = event_id;
    tenant_id = tenant_id;
    trace_id = current.trace_id;
    aggregate_type = "task";
    aggregate_id = task_id;
    topic = topic;
    payload = current.input_payload;
    idempotency_key = "resume:" +++ task_id +++ ":" +++ decimal (c.sequence + 1);
    status = pending;
    attempts = 0;
    created_at = now;
    dispatched_at = none;
    next_attempt_at = some now;
    last_error = none;
  }

  -- the block inside the transaction
  unfoldable pub resume_block :
      String → String → TaskState → TaskCheckpoint → OutboxEvent → Exec Db (Unit {0})
  resume_block tenant_id task_id next_state checkpoint event = do
    append_checkpoint bound checkpoint
    on_tasks (TaskRepo.transition_from_awaiting_approval bound tenant_id task_id next_state now)
    enqueue_event bound event

  -- _resolve
  unfoldable pub resolve : String → String → String → Option String → TaskState → Exec Db Task
  unfolding resume_block resumed resume_event
  resolve tenant_id task_id decision feedback next_state = do
    found ← on_tasks (TaskRepo.get bound tenant_id task_id)
    current ← paused found
    latest ← latest_checkpoint bound tenant_id task_id
    checkpoint ← present latest
    let after = resumed tenant_id task_id decision feedback checkpoint
    catch
        (transaction (
          resume_block tenant_id task_id next_state after
            (resume_event tenant_id task_id current checkpoint)))
        (λ e. raise (translate e))
    refreshed ← on_tasks (TaskRepo.get bound tenant_id task_id)
    asserted refreshed

  unfoldable pub approve : String → String → Option String → Exec Db Task
  unfolding resolve
  approve tenant_id task_id feedback = resolve tenant_id task_id "approve" feedback running

  unfoldable pub reject : String → String → Option String → Exec Db Task
  unfolding resolve
  reject tenant_id task_id feedback = resolve tenant_id task_id "reject" feedback running

  unfoldable pub abort : String → String → Exec Db Task
  abort tenant_id task_id = do
    catch
        (on_tasks
          (TaskRepo.transition_from_awaiting_approval bound tenant_id task_id cancelled now))
        (λ e. raise (translate_illegal e))
    refreshed ← on_tasks (TaskRepo.get bound tenant_id task_id)
    asserted refreshed
