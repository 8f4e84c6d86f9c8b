-- ===== src/Worker/Run.antt =====
-- worker/runner.py: one run of a task's graph, to the pause at a gate or to the terminal write, and
-- the follow-up task behind it.
use meta_agent.Common.{ℕ, String, Bool, true, false, Option, none, some, [], ◌∷◌, if◌then◌else◌}
use meta_agent.Errors.{Result, ok, err}
use meta_agent.Exec.{Exec, pure, lift, ◌>>=◌, ◌>>◌}
use meta_agent.Context.{RequestContext}
use meta_agent.Dict.{get}
use meta_agent.Value.{Value, null, str, int, dict, ℤ, or_null, to_fields}
use meta_agent.Format.{◌+++◌}
use meta_agent.RunState.{TaskRunState}
use meta_agent.Graph.{Graph}
use meta_agent.Task.{Task, TaskState, TaskResult, running, is_running, state_value, type_value}
use meta_agent.TaskRepo.{update_state, set_awaiting_approval, complete}
use meta_agent.Db.{on_tasks}
use meta_agent.Submitter.{FollowUpSpec, submit_follow_up}
use meta_agent.Chain.{TaskChainRegistry, derive}
use meta_agent.Worker.{
  Workspace, WorkerLoop, World, on_db, ack, unless_illegal, attempt, take_time, take_id, audit,
}
use meta_agent.Worker.Load.{load_state, with_workspace, run_steps}
use meta_agent.Worker.Results.{build_result, augment_with_cost}
use meta_agent.Worker.Export.{export_trajectory}

-- `v if isinstance(v, str) else None`
abbrev pub str_or_null : Value → Value
str_or_null (str s) = str s
str_or_null _ = null

abbrev pub output_value : TaskResult → Value
output_value result = elim result.output [ none ↦ null | some d ↦ dict (to_fields d) ]

abbrev pub is_success : TaskState → Bool
is_success TaskState.succeeded = true
is_success _ = false

module _ {Deps : Type 0} (w : WorkerLoop Deps) (bound : Option RequestContext)
    (ctx : RequestContext) where
  -- the three audits behind a submission, by what it answered
  abbrev pub chained : Task → FollowUpSpec → Result (Option Task) → Exec World (Unit {0})
  chained parent spec (err e) = audit w bound ctx "task.chain_failed" (
      ("parent_task_id", str parent.task_id)
      ∷ ("follow_up_type", str (type_value spec.task_type))
      ∷ ("error", str (w.formats.text_of e))
      ∷ [])
  chained parent spec (ok none) = audit w bound ctx "task.chain_skipped" (
      ("parent_task_id", str parent.task_id)
      ∷ ("follow_up_type", str (type_value spec.task_type))
      ∷ ("reason", str "duplicate")
      ∷ [])
  chained parent spec (ok (some child)) = audit w bound ctx "task.chain_enqueued" (
      ("parent_task_id", str parent.task_id)
      ∷ ("child_task_id", str child.task_id)
      ∷ ("follow_up_type", str (type_value spec.task_type))
      ∷ ("idempotency_key", str spec.idempotency_key)
      ∷ [])

  -- the submitter takes its time and ids from the same sources
  unfoldable pub submit : Task → FollowUpSpec → Exec World (Option Task)
  submit parent spec = do
    now ← take_time w
    child_id ← take_id w
    event_id ← take_id w
    on_db (submit_follow_up bound parent spec now child_id event_id)

  abbrev pub follow : Task → Option FollowUpSpec → Exec World (Unit {0})
  follow parent none = pure tt
  follow parent (some spec) = do answer ← attempt (submit parent spec); chained parent spec answer

  abbrev pub derived : Option TaskChainRegistry → Task → TaskResult → Option FollowUpSpec
  derived none parent result = none
  derived (some policies) parent result = derive policies parent result

  -- _maybe_enqueue_follow_up
  unfoldable pub maybe_enqueue_follow_up : Task → TaskResult → TaskState → Exec World (Unit {0})
  maybe_enqueue_follow_up parent result terminal_state =
      if w.submitter
      then (if is_success terminal_state
          then follow parent (derived w.chain_registry parent result)
          else pure tt)
      else pure tt

  -- the part of `_run_graph` for a run that waits at a gate
  unfoldable pub pause : String → Task → TaskRunState → Exec World (Unit {0})
  pause entry_id task s = do
    paused_at ← take_time w
    unless_illegal
        (on_db (on_tasks (set_awaiting_approval bound task.tenant_id task.task_id paused_at)))
        (do
          audit w bound ctx "worker.task_already_advanced"
              (("task_id", str task.task_id) ∷ ("attempted", str "awaiting_approval") ∷ [])
          ack entry_id)
        (do
          audit w bound ctx "task.awaiting_approval" (
              ("task_id", str task.task_id)
              ∷ ("sequence", int (ℤ.pos s.sequence))
              ∷ ("gate_id", str_or_null (or_null (get s.data_ "_human_gate_at")))
              ∷ [])
          ack entry_id)

  -- the part for a run that finished
  unfoldable pub finish : String → Task → Graph → TaskRunState → ℕ → Exec World (Unit {0})
  finish entry_id task graph s started_at = do
    finished_at ← take_time w
    answer ← lift (build_result task graph s started_at finished_at)
    let result = augment_with_cost w.llm_usage task answer.0
    let terminal_state = answer.1
    unless_illegal
        (on_db
          (on_tasks (complete bound task.tenant_id task.task_id result terminal_state finished_at)))
        (do
          audit w bound ctx "worker.task_already_terminal"
              (("task_id", str task.task_id) ∷ ("attempted", str (state_value terminal_state)) ∷ [])
          ack entry_id)
        (do
          audit w bound ctx ("task." +++ state_value terminal_state)
              (("sequence", int (ℤ.pos s.sequence)) ∷ ("output", output_value result) ∷ [])
          export_trajectory w bound ctx task terminal_state result
          maybe_enqueue_follow_up task result terminal_state
          ack entry_id)

  -- `started_at`, and the transition of a task that is not running yet
  abbrev pub start : Task → Exec World ℕ
  start task = if is_running task.state then pure task.updated_at else do
    started_at ← take_time w
    on_db (on_tasks (update_state bound task.tenant_id task.task_id running started_at))
    pure started_at

  -- _run_graph, with the fuel of its loop
  unfoldable pub run_graph : ℕ → String → Task → Graph → Option Workspace → Exec World (Unit {0})
  run_graph fuel entry_id task graph workspace = do
    loaded ← load_state bound task graph
    started_at ← start task
    s ← run_steps w bound fuel task graph (with_workspace workspace loaded)
    if s.awaiting_approval then pause entry_id task s else finish entry_id task graph s started_at
