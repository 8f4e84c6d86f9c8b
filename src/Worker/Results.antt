-- ===== src/Worker/Results.antt =====
-- worker/runner.py: the result of a finished run, its costs, and the copy of its trajectory.
use meta_agent.Common.{
  ℕ, String, Bool, true, false, Option, none, some, List, [], ◌∷◌, ◌==◌, if◌then◌else◌,
}
use meta_agent.Errors.{◌>>=◌, ◌>>◌, Result, ok, err, require, value_error}
use meta_agent.Dict.{Dict, get, put}
use meta_agent.Value.{
  Value, Items, Fields, null, str, int, arr, nil, cons, dict, end, field, ℤ, or_null, to_fields,
}
use meta_agent.RunState.{TaskRunState}
use meta_agent.Graph.{Graph}
use meta_agent.Task.{
  Task, TaskState, TaskResult, TaskResultStatus, TaskError, TaskErrorCode, validated,
}
use meta_agent.Worker.{UsageBucket}

abbrev pub of_fields : Fields → Dict Value
of_fields end = []
of_fields (field k v fs) = (k, v) ∷ of_fields fs

-- `raw if isinstance(raw, dict) else None`
abbrev pub dict_or_none : Value → Option (Dict Value)
dict_or_none (dict fs) = some (of_fields fs)
dict_or_none _ = none

abbrev pub graph_failure : TaskRunState → String → TaskError
graph_failure s message = record {
  code = TaskErrorCode.graph_error;
  message = message;
  details = some (
      ("failure_category", str "infra_error")
      ∷ ("current_node", str s.current_node)
      ∷ ("sequence", int (ℤ.pos s.sequence))
      ∷ []);
}

-- the status, the error and the terminal state of a run
abbrev pub outcome : TaskRunState → Option String → TaskResultStatus × Option TaskError × TaskState
outcome s none = (TaskResultStatus.succeeded, none, TaskState.succeeded)
outcome s (some message) =
    (TaskResultStatus.failed, some (graph_failure s message), TaskState.failed)

-- `message: str = Field(..., min_length=1)` of TaskError
abbrev pub has_message : Option String → Bool
has_message none = true
has_message (some message) = if message == "" then false else true

-- the arguments of the constructor of TaskResult, which validates them
abbrev pub result_with :
    Task → Graph → TaskRunState → ℕ → ℕ → TaskResultStatus → Option TaskError → TaskResult
result_with task graph s started_at finished_at status error = record {
  task_id = task.task_id;
  tenant_id = task.tenant_id;
  trace_id = task.trace_id;
  graph_id = graph.graph_id;
  status = status;
  output = dict_or_none (or_null (get s.data_ "output"));
  error = error;
  node_sequence = s.sequence;
  started_at = started_at;
  finished_at = finished_at;
}

-- _build_result; the constructors of TaskError and TaskResult raise ValueError
unfoldable pub build_result : Task → Graph → TaskRunState → ℕ → ℕ → Result (TaskResult × TaskState)
build_result task graph s started_at finished_at =
    let (status, error, terminal) = outcome s s.error in
    do
      require (has_message s.error) value_error
      result ← validated (result_with task graph s started_at finished_at status error)
      ok (result, terminal)

unfoldable pub cost_view : List UsageBucket → Items
cost_view [] = nil
cost_view (b ∷ buckets) =
    cons
      (dict (
        to_fields (
          ("step_kind", str b.key)
          ∷ ("tokens", int (ℤ.pos b.tokens))
          ∷ ("cost_usd_micros", int (ℤ.pos b.cost_usd_micros))
          ∷ ("calls", int (ℤ.pos b.calls))
          ∷ [])))
      (cost_view buckets)

abbrev pub or_empty : Option (Dict Value) → Dict Value
or_empty none = []
or_empty (some d) = d

abbrev pub with_costs : Result (List UsageBucket) → TaskResult → TaskResult
with_costs (err e) result = result
with_costs (ok buckets) result = record result {
  output = some (put (or_empty result.output) "cost_by_step_kind" (arr (cost_view buckets)));
}

-- _augment_with_cost, by the usage repository that the worker is wired with
unfoldable pub augment_with_cost :
    Option (String → String → Result (List UsageBucket)) → Task → TaskResult → TaskResult
augment_with_cost none task result = result
augment_with_cost (some aggregate) task result =
    with_costs (aggregate task.tenant_id task.task_id) result

-- `v.get(k) if isinstance(v, dict) else None`
abbrev pub member : Value → String → Value
member (dict fs) k = or_null (get (of_fields fs) k)
member _ k = null

abbrev pub status_value : TaskResultStatus → String
status_value TaskResultStatus.succeeded = "succeeded"
status_value TaskResultStatus.failed = "failed"

abbrev pub code_value : TaskErrorCode → String
code_value TaskErrorCode.graph_error = "graph_error"
code_value TaskErrorCode.abandoned = "abandoned"
code_value TaskErrorCode.internal = "internal"

-- `a if a is not None else b`
abbrev pub if_null : Value → Value → Value
if_null null b = b
if_null a b = a

abbrev pub error_details : Option TaskError → Dict Value
error_details none = []
error_details (some e) = or_empty e.details

abbrev pub error_entry : Option TaskError → Dict Value
error_entry none = []
error_entry (some e) = ("error_code", str (code_value e.code)) ∷ []

-- where the output names no category, the error's details speak for both fields
abbrev pub failure_fields : Value → Value → Dict Value → Value × Value
failure_fields null kind details =
    (or_null (get details "failure_category"), if_null kind (or_null (get details "failure_kind")))
failure_fields category kind details = (category, kind)

-- _result_observability_metadata
unfoldable pub result_observability_metadata : TaskResult → Dict Value
result_observability_metadata result =
    let failure = or_null (get (or_empty result.output) "failure_explanation") in
    let (category, kind) =
      failure_fields (member failure "category") (member (member failure "details") "failure_kind")
        (error_details result.error) in
    ("result_status", str (status_value result.status))
    ∷ ("failure_category", category)
    ∷ ("failure_kind", kind)
    ∷ ("node_sequence", int (ℤ.pos result.node_sequence))
    ∷ error_entry result.error
