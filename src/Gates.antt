-- ===== src/Gates.antt =====
-- core/orchestration/human_gate.py and core/orchestration/budget_gate.py: the nodes that pause a
-- run for an operator, and the check of a task's budget.
pub mod Decisions
use meta_agent.Common.{
  ℕ, zero, ◌+◌, String, Bool, true, false, not, ◌&&◌, ◌||◌, Option, none, some, [], List, ◌∷◌, ◌==◌,
  ltb, if◌then◌else◌,
}
use meta_agent.Errors.{Result, ok, err, graph_error, ◌>>=◌, ◌>>◌, require}
use meta_agent.Format.{decimal, ◌+++◌}
use meta_agent.Dict
use meta_agent.Dict.{Dict, get}
use meta_agent.Value.{Value, null, bool, int, str, pos, is_text, or_null, to_bool, positive}
use meta_agent.RunState.{TaskRunState, end_node}
use meta_agent.Graph.{NodeResult, NodeFn}

abbrev pub human_decision_key : String
human_decision_key = "_human_decision"

abbrev pub human_feedback_key : String
human_feedback_key = "_human_feedback"

abbrev pub human_gate_at_key : String
human_gate_at_key = "_human_gate_at"

-- state.data.get(key), `None` for a missing key
abbrev pub field_of : TaskRunState → String → Value
field_of s key = or_null (get s.data_ key)

-- clear the decision and the gate, and set one marker
abbrev cleared : String → Dict Value
cleared marker = (human_decision_key, null) ∷ (human_gate_at_key, null) ∷ (marker, bool true) ∷ []

abbrev rejected_route : Option String → NodeResult
rejected_route none = record {
  data_update = cleared "_rejected_by_human";
  next_node = some end_node;
  awaiting_approval = false;
  error = none;
}
rejected_route (some next) = record {
  data_update = cleared "_rejected_with_feedback";
  next_node = some next;
  awaiting_approval = false;
  error = none;
}

-- the inner function `gate`
unfoldable pub gate : String → String → Option String → TaskRunState → NodeResult
gate gate_id next_approved next_rejected s =
    let decision = field_of s human_decision_key in
    if is_text decision "approve"
    then record {
      data_update = (human_decision_key, null) ∷ (human_gate_at_key, null) ∷ [];
      next_node = some next_approved;
      awaiting_approval = false;
      error = none;
    }
    else if is_text decision "reject"
    then rejected_route next_rejected
    else record {
      data_update = (human_gate_at_key, str gate_id) ∷ [];
      next_node = none;
      awaiting_approval = true;
      error = none;
    }

-- `next_node_when_rejected is not None and not next_node_when_rejected`
abbrev given_empty : Option String → Bool
given_empty none = false
given_empty (some name) = name == ""

unfoldable pub build_human_gate : String → String → Option String → Result NodeFn
build_human_gate gate_id next_approved next_rejected = do
  require (not (gate_id == "")) graph_error
  require (not (next_approved == "")) graph_error
  require (not (given_empty next_rejected)) graph_error
  ok (λ s. ok (gate gate_id next_approved next_rejected s))

abbrev pub budget_gate_id : String
budget_gate_id = "budget"

-- one bucket of `aggregate_for_task`
pub record UsageBucket : Type 0 where
  pub key : Option String
  pub tokens : ℕ
  pub cost_usd_micros : ℕ
  pub calls : ℕ

unfoldable pub spent_of : List UsageBucket → ℕ
spent_of [] = 0
spent_of (b ∷ bs) = b.cost_usd_micros + spent_of bs

-- the part of `check_budget_policy` that reads the cost; `abort` is the policy's test
unfoldable pub check_spend : Bool → ℕ → ℕ → Option NodeResult
check_spend abort spent threshold =
    if ltb spent threshold
    then none
    else if abort
    then some (record {
      data_update =
          ("_budget_exceeded", bool true)
          ∷ ("_budget_spent_micros", int (pos spent))
          ∷ ("_budget_threshold_micros_at_abort", int (pos threshold))
          ∷ [];
      next_node = some end_node;
      awaiting_approval = false;
      error = some (
          "budget exceeded: spent "
          +++ decimal spent
          +++ " >= threshold "
          +++ decimal threshold
          +++ " micro-USD");
    })
    else some (record {
      data_update =
          (human_gate_at_key, str budget_gate_id) ∷ ("_budget_spent_micros", int (pos spent)) ∷ [];
      next_node = none;
      awaiting_approval = true;
      error = none;
    })

-- from the threshold on; the aggregation is asked only where its answer is read
unfoldable pub check_threshold :
    Result (List UsageBucket) → Bool → Bool → Option ℕ → Result (Option NodeResult)
unfolding check_spend spent_of
check_threshold usage abort passed none = ok none
check_threshold usage abort true (some threshold) = ok none
check_threshold usage abort false (some threshold) = do
  buckets ← usage
  ok (check_spend abort (spent_of buckets) threshold)

-- check_budget_policy; `usage` is `none` where no repository is wired, and else what
-- `aggregate_for_task` answers
unfoldable pub check_budget_policy :
    Option (Result (List UsageBucket)) → String → TaskRunState → Result (Option NodeResult)
unfolding check_threshold
check_budget_policy none this_node s = ok none
check_budget_policy (some usage) this_node s =
    let policy = field_of s "_budget_policy" in
    let decision = field_of s human_decision_key in
    let gate_at = field_of s human_gate_at_key in
    if not (is_text policy "gate_on_threshold" || is_text policy "abort_on_threshold")
    then ok none
    else if is_text gate_at budget_gate_id && is_text decision "approve"
    then ok (
        some (record {
          data_update =
              ("_budget_gate_passed", bool true)
              ∷ (human_decision_key, null)
              ∷ (human_gate_at_key, null)
              ∷ [];
          next_node = some this_node;
          awaiting_approval = false;
          error = none;
        }))
    else if is_text gate_at budget_gate_id && is_text decision "reject"
    then ok (
        some (record {
          data_update =
              (human_decision_key, null)
              ∷ (human_gate_at_key, null)
              ∷ ("_budget_exceeded", bool true)
              ∷ [];
          next_node = some end_node;
          awaiting_approval = false;
          error = some "budget gate rejected by operator";
        }))
    else check_threshold usage (is_text policy "abort_on_threshold")
        (to_bool (field_of s "_budget_gate_passed"))
        (positive (field_of s "_budget_threshold_micros"))
