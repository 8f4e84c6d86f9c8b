-- ===== src/Worker/Dispatch.antt =====
-- worker/runner.py: the workspace around a run, and what is done with one message of the queue.
use meta_agent.Common.{ℕ, String, Option, none, some, List, [], ◌∷◌, ◌++◌, if◌then◌else◌}
use meta_agent.Errors.{Error, Result, ok, err, workspace_error}
use meta_agent.Exec.{Exec, pure, raise, lift, catch, ◌>>=◌, ◌>>◌}
use meta_agent.Context.{RequestContext}
use meta_agent.Dict.{get}
use meta_agent.Value.{Value, str}
use meta_agent.Format.{◌+++◌}
use meta_agent.Graph.{Graph}
use meta_agent.Task.{Task, is_terminal, state_value}
use meta_agent.TaskRepo
use meta_agent.TaskRepo.{complete, list_running_for_resume}
use meta_agent.Db.{on_tasks}
use meta_agent.Registry.{resolve_graph}
use meta_agent.Fanout.{is_among}
use meta_agent.Worker.{
  DeliveredMessage, Workspace, WorkspaceManager, WorkspaceCall, provisioned, cleaned, WorkerLoop,
  World, on_db, ack, audit,
}
use meta_agent.Worker.Run.{run_graph}

-- `v if isinstance(v, str) else None`
abbrev pub text_of_value : Option Value → Option String
text_of_value (some (str s)) = some s
text_of_value _ = none

-- `try: body finally: cleanup`
abbrev pub kept : Result (Unit {0}) → Result (Unit {0}) → Result (Unit {0})
kept answer (ok u) = answer
kept answer (err e) = err e

abbrev pub finally_do : Exec World (Unit {0}) → Exec World (Unit {0}) → Exec World (Unit {0})
finally_do body cleanup s =
    let (answer, after) = body s in let (last, ended) = cleanup after in (kept answer last, ended)

module _ {Deps : Type 0} (w : WorkerLoop Deps) (bound : Option RequestContext)
    (ctx : RequestContext) where
  abbrev pub called : (List WorkspaceCall → Result Workspace) → Exec World Workspace
  called provision s = elim (provision s.calls) [
    | err e ↦ (err e, s)
    | ok workspace ↦ (ok workspace, record s { calls = s.calls ++ provisioned workspace ∷ [] })
  ]

  -- _provision_workspace
  unfoldable pub provision_workspace : WorkspaceManager → Task → String → Exec World Workspace
  provision_workspace manager task graph_id = do
    workspace ← called (λ calls.
        manager.provision calls task ("agent/" +++ task.task_id)
          (text_of_value (get task.input_payload "repo_url"))
          (text_of_value (get task.input_payload "base_ref")))
    audit w bound ctx "workspace.provisioned" (
        ("task_id", str task.task_id)
        ∷ ("graph_id", str graph_id)
        ∷ ("workspace_id", str workspace.workspace_id)
        ∷ ("branch", str workspace.branch)
        ∷ ("worktree_path", str workspace.worktree_path)
        ∷ [])
    pure workspace

  abbrev pub cleaned_up : Workspace → Result (Unit {0}) → Exec World (Unit {0})
  cleaned_up workspace (err (workspace_error text)) = audit w bound ctx "workspace.cleanup_failed" (
      ("workspace_id", str workspace.workspace_id)
      ∷ ("worktree_path", str workspace.worktree_path)
      ∷ ("error", str text)
      ∷ [])
  cleaned_up workspace (err e) = raise e
  cleaned_up workspace (ok u) = do
    λ s. (ok tt, record s { calls = s.calls ++ cleaned workspace ∷ [] })
    audit w bound ctx "workspace.cleaned" (("workspace_id", str workspace.workspace_id) ∷ [])

  -- _cleanup_workspace
  unfoldable pub cleanup_workspace : WorkspaceManager → Workspace → Exec World (Unit {0})
  cleanup_workspace manager workspace s = cleaned_up workspace (manager.cleanup s.calls workspace) s

  -- the `except WorkspaceError` clause around the provisioning
  abbrev pub unprovisioned : Task → Error → Exec World Workspace
  unprovisioned task (workspace_error text) = do
    audit w bound ctx "workspace.provision_failed"
        (("task_id", str task.task_id) ∷ ("error", str text) ∷ [])
    raise (workspace_error text)
  unprovisioned task e = raise e

  -- the part of `_dispatch` for a graph that requires a workspace
  abbrev pub with_manager :
      ℕ → String → Task → Graph → Option WorkspaceManager → Exec World (Unit {0})
  with_manager fuel entry_id task graph none = do
    audit w bound ctx "worker.workspace_unavailable"
        (("task_id", str task.task_id) ∷ ("graph_id", str graph.graph_id) ∷ [])
    ack entry_id
  with_manager fuel entry_id task graph (some manager) = do
    workspace ← catch (provision_workspace manager task graph.graph_id) (unprovisioned task)
    finally_do (run_graph w bound ctx fuel entry_id task graph (some workspace))
        (cleanup_workspace manager workspace)

  abbrev pub dispatch_task : ℕ → String → String → Option Task → Exec World (Unit {0})
  dispatch_task fuel entry_id task_id none = do
    audit w bound ctx "worker.task_missing" (("task_id", str task_id) ∷ [])
    ack entry_id
  dispatch_task fuel entry_id task_id (some task) =
      if is_terminal task.state
      then (do
        audit w bound ctx "worker.task_already_terminal"
            (("task_id", str task.task_id) ∷ ("state", str (state_value task.state)) ∷ [])
        ack entry_id)
      else do
        graph ← lift (resolve_graph w.registry task.task_type task.graph_id)
        if is_among graph.graph_id w.registry.workspaces
            then with_manager fuel entry_id task graph w.workspaces
            else run_graph w bound ctx fuel entry_id task graph none

  abbrev pub dispatch_to : ℕ → DeliveredMessage → Option String → Exec World (Unit {0})
  dispatch_to fuel msg none = do
    audit w bound ctx "worker.envelope_invalid" (("reason", str "missing_task_id") ∷ [])
    ack msg.entry_id
  dispatch_to fuel msg (some task_id) = do
    found ← on_db (on_tasks (TaskRepo.get bound msg.envelope.tenant_id task_id))
    dispatch_task fuel msg.entry_id task_id found

  -- _dispatch, with the fuel of the loop
  unfoldable pub dispatch : ℕ → DeliveredMessage → Exec World (Unit {0})
  dispatch fuel msg = dispatch_to fuel msg msg.envelope.task_id
