-- ===== src/Worker/Recover.antt =====
-- worker/runner.py: `recover_in_flight`, which puts the tasks that a crashed worker left running on
-- the queue again.
use meta_agent.Common.{ℕ, suc, ◌/◌, String, Bool, true, false, none, some, List, [], ◌∷◌}
use meta_agent.Errors.{Result, ok, err}
use meta_agent.Exec.{Exec, pure, ◌>>=◌, ◌>>◌}
use meta_agent.Value.{str}
use meta_agent.Format.{decimal, ◌+++◌}
use meta_agent.Task.{Task}
use meta_agent.TaskRepo.{list_running_for_resume}
use meta_agent.Db.{OutboxEvent, pending, enqueue_event}
use meta_agent.Worker.{WorkerLoop, World, on_db, attempt, take_time, take_id, audit}
use meta_agent.Worker.Load.{task_to_context}

-- times are microseconds, `int(now.timestamp())` seconds
abbrev pub seconds : ℕ → ℕ
seconds now = now / 1000000

module _ {Deps : Type 0} (w : WorkerLoop Deps) where
  abbrev pub recover_event : Task → ℕ → String → OutboxEvent
  recover_event task now event_id = record {
    event_id = event_id;
    tenant_id = task.tenant_id;
    trace_id = task.trace_id;
    aggregate_type = "task";
    aggregate_id = task.task_id;
    topic = w.task_topic;
    payload = task.input_payload;
    idempotency_key = "recover:" +++ task.task_id +++ ":" +++ decimal (seconds now);
    status = pending;
    attempts = 0;
    created_at = now;
    dispatched_at = none;
    next_attempt_at = some now;
    last_error = none;
  }

  -- what follows the enqueue: whether the task counts
  abbrev pub reported : Task → Result (Unit {0}) → Exec World Bool
  reported task (err e) = do
    audit w (some (task_to_context task)) (task_to_context task) "worker.recover_failed"
        (("task_id", str task.task_id) ∷ ("error_type", str (w.formats.type_name e)) ∷ [])
    pure false
  reported task (ok u) = do
    audit w (some (task_to_context task)) (task_to_context task) "worker.task_recovered"
        (("task_id", str task.task_id) ∷ [])
    pure true

  -- one task of the loop, under its own context
  unfoldable pub recover_task : Task → Exec World Bool
  recover_task task = do
    now ← take_time w
    event_id ← take_id w
    answer ←
        attempt
          (on_db (enqueue_event (some (task_to_context task)) (recover_event task now event_id)))
    reported task answer

  abbrev pub counted : Bool → ℕ → ℕ
  counted true count = suc count
  counted false count = count

  unfoldable pub recover_all : List Task → ℕ → Exec World ℕ
  recover_all [] count = pure count
  recover_all (task ∷ tasks) count = do
    recovered ← recover_task task
    recover_all tasks (counted recovered count)

  -- without an outbox there is nothing to recover to
  abbrev pub recover_into : Bool → ℕ → Exec World ℕ
  recover_into false limit s = (ok 0, s)
  recover_into true limit s = recover_all (list_running_for_resume limit s.db.tasks) 0 s

  -- recover_in_flight
  unfoldable pub recover_in_flight : ℕ → Exec World ℕ
  recover_in_flight = recover_into w.outbox
