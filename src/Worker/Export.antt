-- ===== src/Worker/Export.antt =====
-- worker/runner.py: the copy of a finished task's trajectory, which fails in silence.
use meta_agent.Common.{String, Option, some, [], ◌∷◌}
use meta_agent.Errors.{Result, ok, err}
use meta_agent.Exec.{Exec, pure, lift, catch, ◌>>=◌}
use meta_agent.Context.{RequestContext}
use meta_agent.Dict.{Dict, update}
use meta_agent.Value.{Value, str, int, ℤ}
use meta_agent.Task.{Task, TaskState, TaskResult}
use meta_agent.Worker.{WorkerLoop, World, TrajectoryExport, take_time, audit, attempt}
use meta_agent.Worker.Results.{result_observability_metadata}

module _ {Deps : Type 0} (w : WorkerLoop Deps) (bound : Option RequestContext) where
  -- the body of the `try`
  unfoldable pub export :
      (String → String → Result Value)
      → (String → Dict Value → Value → Result TrajectoryExport)
      → Task
      → TaskState
      → TaskResult
      → Exec World TrajectoryExport
  export list_for_task export_task task terminal_state result = do
    page ← lift (list_for_task task.tenant_id task.task_id)
    now ← take_time w
    let exported = record task { state = terminal_state; updated_at = now }
    let payload = update (w.formats.dump_task exported) (result_observability_metadata result)
    lift (export_task task.task_id payload page)

  -- what follows the `try`; the audit of a failed export may itself fail in silence
  abbrev pub exported : RequestContext → Task → Result TrajectoryExport → Exec World (Unit {0})
  exported ctx task (err e) =
      catch
        (audit w bound ctx "observability.langfuse_export_failed"
          (("task_id", str task.task_id) ∷ ("error_type", str (w.formats.type_name e)) ∷ []))
        (λ e'. pure tt)
  exported ctx task (ok answer) = audit w bound ctx "observability.langfuse_exported" (
      ("task_id", str task.task_id)
      ∷ ("langfuse_trace_id", str answer.trace_id)
      ∷ ("observation_count", int (ℤ.pos answer.observation_count))
      ∷ [])

  abbrev pub export_with :
      Option (String → String → Result Value)
      → Option (String → Dict Value → Value → Result TrajectoryExport)
      → RequestContext
      → Task
      → TaskState
      → TaskResult
      → Exec World (Unit {0})
  export_with (some list_for_task) (some export_task) ctx task terminal_state result = do
    answer ← attempt (export list_for_task export_task task terminal_state result)
    exported ctx task answer
  export_with _ _ ctx task terminal_state result = pure tt

  -- _export_trajectory
  unfoldable pub export_trajectory :
      RequestContext → Task → TaskState → TaskResult → Exec World (Unit {0})
  export_trajectory = export_with w.trajectory w.trajectory_exporter
