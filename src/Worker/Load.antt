-- ===== src/Worker/Load.antt =====
-- worker/runner.py: the contexts, the state that a run starts or goes on from, and the loop over the
-- steps of a graph with a checkpoint and an audit for each.
use meta_agent.Common.{
  ℕ, zero, suc, String, Bool, false, ◌||◌, Option, none, some, List, [], ◌∷◌, ◌==◌, if◌then◌else◌,
}
use meta_agent.Errors.{Error, failure}
use meta_agent.Exec.{Exec, pure, raise, lift, catch, ◌>>=◌, ◌>>◌}
use meta_agent.Context.{RequestContext}
use meta_agent.Dict.{Dict, put}
use meta_agent.Value.{Value, str, int, arr, ℤ}
use meta_agent.RunState.{TaskRunState, start_node}
use meta_agent.Graph.{Graph, step}
use meta_agent.Task.{Task, mode_value, policy_value}
use meta_agent.Db.{TaskCheckpoint, on_tasks, append_checkpoint, latest_checkpoint}
use meta_agent.History.{Message, build_prior_messages, message_items}
use meta_agent.Worker.{
  MessageEnvelope, Workspace, WorkerLoop, World, on_db, take_time, take_id, audit,
}

abbrev or_text : Option String → String → String
or_text none default = default
or_text (some s) default = if s == "" then default else s

-- _envelope_to_context
unfoldable pub envelope_to_context : MessageEnvelope → RequestContext
envelope_to_context envelope = record {
  tenant_id = envelope.tenant_id;
  principal_id = or_text envelope.principal_id "system";
  trace_id = envelope.trace_id;
  request_id = or_text envelope.request_id envelope.message_id;
  session_id = envelope.session_id;
  task_id = envelope.task_id;
  span_id = none;
  parent_span_id = none;
  idempotency_key = some envelope.idempotency_key;
}

-- _task_to_context
abbrev pub task_to_context : Task → RequestContext
task_to_context task = record {
  tenant_id = task.tenant_id;
  principal_id = task.principal_id;
  trace_id = task.trace_id;
  request_id = task.task_id;
  session_id = task.session_id;
  task_id = some task.task_id;
  span_id = none;
  parent_span_id = none;
  idempotency_key = task.idempotency_key;
}

abbrev with_threshold : Option ℕ → Dict Value → Dict Value
with_threshold none data_ = data_
with_threshold (some micros) data_ = put data_ "_budget_threshold_micros" (int (ℤ.pos micros))

-- the data that a task without a checkpoint starts with, before the conversation
unfoldable pub seed_data : Task → Dict Value
seed_data task = with_threshold task.budget_threshold_micros (
    put (put task.input_payload "_permission_mode" (str (mode_value task.permission_mode)))
      "_budget_policy" (str (policy_value task.budget_policy)))

abbrev pub with_prior : List Message → Dict Value → Dict Value
with_prior [] data_ = data_
with_prior (m ∷ ms) data_ = put data_ "_prior_messages" (arr (message_items (m ∷ ms)))

-- `graph_id`, `current_node` and the rest have the defaults of TaskRunState
abbrev pub fresh_state : Task → Graph → Dict Value → TaskRunState
fresh_state task graph data_ = record {
  task_id = task.task_id;
  tenant_id = task.tenant_id;
  trace_id = task.trace_id;
  graph_id = graph.graph_id;
  current_node = start_node;
  sequence = 0;
  data_ = data_;
  finished = false;
  awaiting_approval = false;
  error = none;
}

module _ (bound : Option RequestContext) where
  -- `if task.session_id: try: … except Exception: prior = []`
  abbrev pub prior_messages : Task → Option String → Exec World (List Message)
  prior_messages task none = pure []
  prior_messages task (some session_id) =
      if session_id == ""
      then pure []
      else catch
          (on_db (on_tasks (build_prior_messages bound task.tenant_id session_id task.task_id 20)))
          (λ e. pure [])

  abbrev pub state_from : Task → Graph → Option TaskCheckpoint → Exec World TaskRunState
  state_from task graph none = do
    prior ← prior_messages task task.session_id
    pure (fresh_state task graph (with_prior prior (seed_data task)))
  state_from task graph (some latest) = pure latest.state_snapshot

  -- _load_state
  unfoldable pub load_state : Task → Graph → Exec World TaskRunState
  load_state task graph = do
    latest ← on_db (latest_checkpoint bound task.tenant_id task.task_id)
    state_from task graph latest

-- the re-seeded keys of a run with a workspace
abbrev pub with_workspace : Option Workspace → TaskRunState → TaskRunState
with_workspace none s = s
with_workspace (some workspace) s = record s {
  data_ =
      put (put s.data_ "_workspace_path" (str workspace.worktree_path)) "_workspace_branch"
        (str workspace.branch);
}

abbrev pub is_over : TaskRunState → Bool
is_over s = s.finished || s.awaiting_approval

-- what the model answers where its fuel ends; the loop of the code has no bound
abbrev pub out_of_fuel : Error
out_of_fuel = failure "out of fuel"

module _ {Deps : Type 0} (w : WorkerLoop Deps) (bound : Option RequestContext) where
  abbrev pub step_checkpoint : Task → TaskRunState → String → ℕ → TaskCheckpoint
  step_checkpoint task s checkpoint_id created_at = record {
    checkpoint_id = checkpoint_id;
    task_id = task.task_id;
    tenant_id = task.tenant_id;
    trace_id = task.trace_id;
    node_name = s.current_node;
    sequence = s.sequence;
    state_snapshot = w.formats.snapshot s;
    created_at = created_at;
  }

  -- _persist_step
  unfoldable pub persist_step : Task → TaskRunState → Exec World (Unit {0})
  persist_step task s = do
    checkpoint_id ← take_id w
    created_at ← take_time w
    on_db (append_checkpoint bound (step_checkpoint task s checkpoint_id created_at))
    audit w bound (task_to_context task) "task.node_completed"
        (("node", str s.current_node) ∷ ("sequence", int (ℤ.pos s.sequence)) ∷ [])

  -- the loop of `_run_graph`
  unfoldable pub run_steps : ℕ → Task → Graph → TaskRunState → Exec World TaskRunState
  run_steps zero task graph s = if is_over s then pure s else raise out_of_fuel
  run_steps (suc fuel) task graph s =
      let rest = run_steps fuel task graph in
      if is_over s then pure s else do next ← lift (step graph s); persist_step task next; rest next
