-- ===== src/Submitter.antt =====
-- infra/persistence/task_submitter.py and the value of core/ports/task_submitter.py: a follow-up
-- task and its outbox event, written in one transaction. The clock's time and the two fresh ids are
-- arguments, in the order in which the code takes them.
pub mod Once
use meta_agent.Common.{ℕ, String, Option, none, some}
use meta_agent.Errors.{Error, Result, ok, err, unique_violation}
use meta_agent.Exec.{Exec, pure, raise, ◌>>=◌, ◌>>◌, recover, catch}
use meta_agent.Context.{RequestContext}
use meta_agent.Dict.{Dict}
use meta_agent.Value.{Value}
use meta_agent.Task.{Task, TaskType, PermissionMode, BudgetPolicy}
use meta_agent.Task
use meta_agent.TaskRepo.{upsert}
use meta_agent.Db.{Db, OutboxEvent, pending, on_tasks, enqueue_event, transaction, commit_or}

pub record FollowUpSpec : Type 0 where
  pub task_type : TaskType
  pub input_payload : Dict Value
  pub idempotency_key : String
  pub topic : String

-- the row of the child: the fields that the code does not give have their defaults
abbrev pub child_task : Task → FollowUpSpec → ℕ → String → Task
child_task parent follow_up now child_task_id = record {
  task_id = child_task_id;
  tenant_id = parent.tenant_id;
  session_id = parent.session_id;
  principal_id = parent.principal_id;
  trace_id = parent.trace_id;
  idempotency_key = some follow_up.idempotency_key;
  task_type = follow_up.task_type;
  graph_id = none;
  state = Task.pending;
  permission_mode = PermissionMode.auto;
  budget_policy = BudgetPolicy.unlimited;
  budget_threshold_micros = none;
  input_payload = follow_up.input_payload;
  created_at = now;
  updated_at = now;
}

abbrev pub child_event : Task → FollowUpSpec → ℕ → String → String → OutboxEvent
child_event parent follow_up now child_task_id event_id = record {
  event_id = event_id;
  tenant_id = parent.tenant_id;
  trace_id = parent.trace_id;
  aggregate_type = "task";
  aggregate_id = child_task_id;
  topic = follow_up.topic;
  payload = follow_up.input_payload;
  idempotency_key = follow_up.idempotency_key;
  status = pending;
  attempts = 0;
  created_at = now;
  dispatched_at = none;
  next_attempt_at = some now;
  last_error = none;
}

-- `except asyncpg.UniqueViolationError: return None`
abbrev pub duplicate : Error → Exec Db (Option Task)
duplicate unique_violation = pure none
duplicate e = raise e

module _ (bound : Option RequestContext) where
  -- the block inside the transaction
  unfoldable pub submit_block : Task → OutboxEvent → Exec Db (Option Task)
  submit_block task event = do
    on_tasks (upsert bound task)
    enqueue_event bound event
    pure (some task)

  -- PgTaskSubmitter.submit_follow_up
  unfoldable pub submit_follow_up :
      Task → FollowUpSpec → ℕ → String → String → Exec Db (Option Task)
  submit_follow_up parent follow_up now child_task_id event_id =
      catch
        (transaction (
          submit_block (child_task parent follow_up now child_task_id)
            (child_event parent follow_up now child_task_id event_id)))
        duplicate
