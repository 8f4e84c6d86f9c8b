-- ===== src/Task.antt =====
-- core/domain/task.py, core/orchestration/result.py and the set of terminal states of
-- core/ports/repository.py. Times are numbers of microseconds.
use Prim.Native.Nat.{ℕ}
use Prim.Native.String.{String}
use mathlib.Core.Bool.{Bool, true, false}
use mathlib.Core.Option.{Option, none, some}
use meta_agent.Common.{ltb, if◌then◌else◌}
use meta_agent.Dict.{Dict}
use meta_agent.Value.{Value}
use meta_agent.Errors.{Result, ok, err, value_error}

pub data TaskType : Type 0 where
  bug_fix code_review auto_pr system_echo system_git_inspect system_shell_agent : TaskType

pub TaskType-discrete : Discrete TaskType
TaskType-discrete = hlevel

-- TaskType.value
unfoldable pub type_value : TaskType → String
type_value bug_fix = "bug_fix"
type_value code_review = "code_review"
type_value auto_pr = "auto_pr"
type_value system_echo = "system_echo"
type_value system_git_inspect = "system_git_inspect"
type_value system_shell_agent = "system_shell_agent"

pub data TaskState : Type 0 where
  pending running awaiting_approval succeeded failed cancelled expired : TaskState

pub data PermissionMode : Type 0 where
  auto approve_before_push approve_each_tool plan : PermissionMode

-- the policy `none` is spelled `unlimited` here: `none` is the empty option
pub data BudgetPolicy : Type 0 where
  unlimited gate_on_threshold abort_on_threshold : BudgetPolicy

pub record Task : Type 0 where
  pub task_id : String
  pub tenant_id : String
  pub session_id : Option String
  pub principal_id : String
  pub trace_id : String
  pub idempotency_key : Option String
  pub task_type : TaskType
  pub graph_id : Option String
  pub state : TaskState
  pub permission_mode : PermissionMode
  pub budget_policy : BudgetPolicy
  pub budget_threshold_micros : Option ℕ
  pub input_payload : Dict Value
  pub created_at : ℕ
  pub updated_at : ℕ

-- state in TERMINAL_TASK_STATES
abbrev pub is_terminal : TaskState → Bool
is_terminal succeeded = true
is_terminal failed = true
is_terminal cancelled = true
is_terminal expired = true
is_terminal pending = false
is_terminal running = false
is_terminal awaiting_approval = false

abbrev pub is_running : TaskState → Bool
is_running running = true
is_running _ = false

abbrev pub is_awaiting : TaskState → Bool
is_awaiting awaiting_approval = true
is_awaiting _ = false

-- TaskState.value
abbrev pub state_value : TaskState → String
state_value pending = "pending"
state_value running = "running"
state_value awaiting_approval = "awaiting_approval"
state_value succeeded = "succeeded"
state_value failed = "failed"
state_value cancelled = "cancelled"
state_value expired = "expired"

-- PermissionMode.value
abbrev pub mode_value : PermissionMode → String
mode_value auto = "auto"
mode_value approve_before_push = "approve_before_push"
mode_value approve_each_tool = "approve_each_tool"
mode_value plan = "plan"

-- BudgetPolicy.value
abbrev pub policy_value : BudgetPolicy → String
policy_value unlimited = "none"
policy_value gate_on_threshold = "gate_on_threshold"
policy_value abort_on_threshold = "abort_on_threshold"

pub data TaskErrorCode : Type 0 where
  graph_error abandoned internal : TaskErrorCode

pub record TaskError : Type 0 where
  pub code : TaskErrorCode
  pub message : String
  pub details : Option (Dict Value)

pub data TaskResultStatus : Type 0 where
  succeeded failed : TaskResultStatus

pub record TaskResult : Type 0 where
  pub task_id : String
  pub tenant_id : String
  pub trace_id : String
  pub graph_id : String
  pub status : TaskResultStatus
  pub output : Option (Dict Value)
  pub error : Option TaskError
  pub node_sequence : ℕ
  pub started_at : ℕ
  pub finished_at : ℕ

-- the first two checks of the validator: an error is there exactly for `failed`
abbrev status_matches : TaskResultStatus → Option TaskError → Bool
status_matches TaskResultStatus.succeeded none = true
status_matches TaskResultStatus.succeeded (some e) = false
status_matches TaskResultStatus.failed none = false
status_matches TaskResultStatus.failed (some e) = true

-- TaskResult._check_status_error_invariant, which runs when a result is built
abbrev pub validated : TaskResult → Result TaskResult
validated r =
    if status_matches r.status r.error
    then (if ltb r.finished_at r.started_at then err value_error else ok r)
    else err value_error
