-- ===== src/Worker/Serve.antt =====
-- worker/runner.py: a message that was delivered too often, the handler around both ways, and a
-- batch of messages.
use meta_agent.Common.{
  ℕ, String, Bool, true, false, Option, none, some, List, [], ◌∷◌, ltb, length, if◌then◌else◌,
}
use meta_agent.Exec.{Exec, pure, lift, catch, ◌>>=◌, ◌>>◌}
use meta_agent.Context.{RequestContext}
use meta_agent.Value.{str, int, ℤ}
use meta_agent.Format.{◌+++◌}
use meta_agent.Graph.{Graph}
use meta_agent.Task.{
  Task, TaskState, TaskResult, TaskResultStatus, TaskError, TaskErrorCode, validated,
}
use meta_agent.TaskRepo
use meta_agent.TaskRepo.{complete, list_running_for_resume}
use meta_agent.Db.{TaskCheckpoint, on_tasks, latest_checkpoint}
use meta_agent.Registry.{resolve_graph}
use meta_agent.Worker.{
  DeliveredMessage, WorkerLoop, World, on_db, ack, unless_illegal, take_time, audit,
}
use meta_agent.Worker.Load.{envelope_to_context}
use meta_agent.Worker.Export.{export_trajectory}
use meta_agent.Worker.Dispatch.{dispatch}

-- SUCCEEDED, FAILED or CANCELLED: the set that `_abandon` spells out
abbrev pub is_closed : TaskState → Bool
is_closed TaskState.succeeded = true
is_closed TaskState.failed = true
is_closed TaskState.cancelled = true
is_closed _ = false

abbrev pub latest_sequence : Option TaskCheckpoint → ℕ
latest_sequence none = 0
latest_sequence (some c) = c.sequence

abbrev pub abandoned_error : ℕ → String → TaskError
abandoned_error delivery_count reason = record {
  code = TaskErrorCode.abandoned;
  message = "delivery_count exceeded: " +++ reason;
  details = some (("delivery_count", int (ℤ.pos delivery_count)) ∷ []);
}

module _ {Deps : Type 0} (w : WorkerLoop Deps) (bound : Option RequestContext)
    (ctx : RequestContext) where
  -- the result row of a message that was given up
  unfoldable pub abandoned_result : DeliveredMessage → String → Task → Graph → ℕ → ℕ → TaskResult
  abandoned_result msg reason task graph sequence finished_at = record {
    task_id = task.task_id;
    tenant_id = task.tenant_id;
    trace_id = task.trace_id;
    graph_id = graph.graph_id;
    status = TaskResultStatus.failed;
    output = none;
    error = some (abandoned_error msg.delivery_count reason);
    node_sequence = sequence;
    started_at = task.updated_at;
    finished_at = finished_at;
  }

  abbrev pub abandon_open : DeliveredMessage → String → Task → Exec World (Unit {0})
  abandon_open msg reason task = do
    graph ← lift (resolve_graph w.registry task.task_type task.graph_id)
    latest ← on_db (latest_checkpoint bound task.tenant_id task.task_id)
    finished_at ← take_time w
    result ←
        lift
          (validated (abandoned_result msg reason task graph (latest_sequence latest) finished_at))
    -- `contextlib.suppress(IllegalTaskTransitionError)` around both calls
    unless_illegal
        (do
          on_db (
              on_tasks
                (complete bound task.tenant_id task.task_id result TaskState.failed finished_at))
          export_trajectory w bound ctx task TaskState.failed result)
        (pure tt) (pure tt)
    ack msg.entry_id

  abbrev pub abandon_task : DeliveredMessage → String → Option Task → Exec World (Unit {0})
  abandon_task msg reason none = ack msg.entry_id
  abandon_task msg reason (some task) =
      if is_closed task.state then ack msg.entry_id else abandon_open msg reason task

  abbrev pub abandon_to : DeliveredMessage → String → Option String → Exec World (Unit {0})
  abandon_to msg reason none = ack msg.entry_id
  abandon_to msg reason (some task_id) = do
    found ← on_db (on_tasks (TaskRepo.get bound msg.envelope.tenant_id task_id))
    abandon_task msg reason found

  -- _abandon
  unfoldable pub abandon : DeliveredMessage → String → Exec World (Unit {0})
  abandon msg reason = do
    audit w bound ctx "task.abandoned"
        (("delivery_count", int (ℤ.pos msg.delivery_count)) ∷ ("reason", str reason) ∷ [])
    abandon_to msg reason msg.envelope.task_id

module _ {Deps : Type 0} (w : WorkerLoop Deps) where
  -- _handle: the message's context is bound around it
  unfoldable pub handle : ℕ → DeliveredMessage → Exec World (Unit {0})
  handle fuel msg =
      let ctx = envelope_to_context msg.envelope in
      if ltb w.max_attempts msg.delivery_count
      then abandon w (some ctx) ctx msg "delivery_count_exceeded"
      else catch (dispatch w (some ctx) ctx fuel msg) (λ e. pure tt)

  -- the loop of `run_once` over the batch that `claim_batch` answered
  unfoldable pub handle_all : ℕ → List DeliveredMessage → Exec World (Unit {0})
  handle_all fuel [] = pure tt
  handle_all fuel (msg ∷ batch) = let rest = handle_all fuel batch in handle fuel msg >> rest

  unfoldable pub run_once : ℕ → List DeliveredMessage → Exec World ℕ
  run_once fuel batch = handle_all fuel batch >> pure (length batch)
