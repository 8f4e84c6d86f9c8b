-- ===== src/Examples/Data.antt =====
-- The tasks, contexts and tables that the examples share.
use meta_agent.Common.{String, false, none, [], ◌∷◌}
use meta_agent.Context.{RequestContext}
use meta_agent.RunState.{TaskRunState}
use meta_agent.Task.{
  Task, TaskState, TaskType, PermissionMode, BudgetPolicy, TaskResult, TaskResultStatus,
}
use meta_agent.TaskRepo.Rows.{Row, Tasks}
use meta_agent.Db.{Db, TaskCheckpoint}

abbrev pub tenant : String → RequestContext
tenant t = record {
  tenant_id = t;
  principal_id = "user";
  trace_id = "trace";
  request_id = "request";
  session_id = none;
  task_id = none;
  span_id = none;
  parent_span_id = none;
  idempotency_key = none;
}

abbrev pub task : String → String → TaskState → Task
task tenant_id task_id s = record {
  task_id = task_id;
  tenant_id = tenant_id;
  session_id = none;
  principal_id = "user";
  trace_id = "trace";
  idempotency_key = none;
  task_type = TaskType.bug_fix;
  graph_id = none;
  state = s;
  permission_mode = PermissionMode.auto;
  budget_policy = BudgetPolicy.unlimited;
  budget_threshold_micros = none;
  input_payload = [];
  created_at = 1;
  updated_at = 1;
}

abbrev pub row : String → String → TaskState → Row
row tenant_id task_id s = record { task = task tenant_id task_id s; result = none }

-- one paused task of one tenant
abbrev pub paused_rows : Tasks
paused_rows = row "acme" "t1" TaskState.awaiting_approval ∷ []

abbrev pub running_rows : Tasks
running_rows = row "acme" "t1" TaskState.running ∷ []

abbrev pub success : TaskResult
success = record {
  task_id = "t1";
  tenant_id = "acme";
  trace_id = "trace";
  graph_id = "echo";
  status = TaskResultStatus.succeeded;
  output = none;
  error = none;
  node_sequence = 3;
  started_at = 1;
  finished_at = 2;
}

abbrev pub run_state : String → TaskRunState
run_state node = record {
  task_id = "t1";
  tenant_id = "acme";
  trace_id = "trace";
  graph_id = "echo";
  current_node = node;
  sequence = 0;
  data_ = [];
  finished = false;
  awaiting_approval = false;
  error = none;
}

abbrev pub checkpoint : TaskCheckpoint
checkpoint = record {
  checkpoint_id = "c1";
  task_id = "t1";
  tenant_id = "acme";
  trace_id = "trace";
  node_name = "gate";
  sequence = 4;
  state_snapshot = run_state "gate";
  created_at = 1;
}

abbrev pub paused_db : Db
paused_db = record { tasks = paused_rows; checkpoints = checkpoint ∷ []; outbox = [] }
