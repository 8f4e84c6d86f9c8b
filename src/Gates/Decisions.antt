-- ===== src/Gates/Decisions.antt =====
-- What an operator's decision does at a gate, and when the budget check lets a node go on.
use meta_agent.Common.{
  ℕ, ◌+◌, ◌<◌, String, ◌≡◌, refl, ◌⊎◌, inl, inr, Bool, true, false, ◌&&◌, ◌||◌, Option, none, some,
  List, ◌==◌, eq_iff, arith, Bool-cases,
}
use mathlib.Core.Path.{subst, sym}
use meta_agent.Errors.{Result, ok, err}
use meta_agent.Dict.{Dict, update, get-put}
use meta_agent.Value.{Value, null, str, is_text, to_bool, positive}
use meta_agent.RunState.{TaskRunState, end_node, advance}
use meta_agent.Graph.{Graph, is_target, apply_result, resolve_next}
use meta_agent.Gates.{
  human_decision_key, human_gate_at_key, field_of, gate, budget_gate_id, UsageBucket, spent_of,
  check_spend, check_threshold, check_budget_policy,
}

-- the state after a node's update
abbrev pub updated : TaskRunState → Dict Value → TaskRunState
updated s d = record s { data_ = update s.data_ d }

-- A human gate that sees no decision pauses the run at the same node: the step adds one to the
-- sequence number and records the gate's id. Any value other than "approve" and "reject" is no
-- decision.
pub gate_pauses :
    (g : Graph) (s : TaskRunState) (n gate_id approved : String) (rejected : Option String)
    → is_text (field_of s human_decision_key) "approve" ≡ false
    → is_text (field_of s human_decision_key) "reject" ≡ false
    → (t : TaskRunState) × (apply_result g s n (gate gate_id approved rejected s) ≡ ok t)
      × (t.awaiting_approval ≡ true)
      × (t.finished ≡ false)
      × (t.current_node ≡ n)
      × (t.sequence ≡ s.sequence + 1)
      × (field_of t human_gate_at_key ≡ str gate_id)
unfolding apply_result gate advance update
gate_pauses g s n gate_id approved rejected no_approve no_reject =
    rw (no_approve, no_reject) (_, refl, refl, refl, refl, refl, simp get-put)

reject_only : (v : Value) → is_text v "reject" ≡ true → is_text v "approve" ≡ false
reject_only (str x) h =
    let same : x ≡ "reject" = (eq_iff x "reject").0 h in
    subst (λ y. (y == "approve") ≡ false) (sym same) refl
reject_only null h = refl
reject_only _ h = refl

-- A human gate that sees "approve" sends the run to the node named for approval, if that is a node
-- or END, and consumes the decision: a gate met next, of any id, pauses again.
pub gate_approves :
    (g : Graph) (s : TaskRunState) (n gate_id approved : String) (rejected : Option String)
    → is_text (field_of s human_decision_key) "approve" ≡ true
    → is_target g approved ≡ true
    → (t : TaskRunState) × (apply_result g s n (gate gate_id approved rejected s) ≡ ok t)
      × (t.awaiting_approval ≡ false)
      × (t.current_node ≡ approved)
      × (t.finished ≡ (approved == end_node))
      × ((other next : String) (route : Option String)
          → (gate other next route t).awaiting_approval ≡ true)
unfolding apply_result gate advance update resolve_next
gate_approves g s n gate_id approved rejected says known =
    rw (says) (rw known (_, refl, refl, refl, refl, λ other next route. simp get-put))

-- A human gate that sees "reject" ends the run, or sends it to the node named for rejection, if that
-- is a node or END, and consumes the decision as well.
pub gate_rejects :
    (g : Graph) (s : TaskRunState) (n gate_id approved : String) (rejected : Option String)
    → is_text (field_of s human_decision_key) "reject" ≡ true
    → ((d : String) → rejected ≡ some d → is_target g d ≡ true)
    → (t : TaskRunState) × (apply_result g s n (gate gate_id approved rejected s) ≡ ok t)
      × (t.awaiting_approval ≡ false)
      × (t.current_node ≡ (elim rejected [ none ↦ end_node | some d ↦ d ]))
      × (field_of t human_decision_key ≡ null)
unfolding apply_result gate advance update resolve_next
gate_rejects g s n gate_id approved none says known =
    rw (reject_only _ says, says) (_, refl, refl, refl, simp get-put)
gate_rejects g s n gate_id approved (some d) says known =
    rw (reject_only _ says, says) (rw (known d refl) (_, refl, refl, refl, simp get-put))

-- why the check lets a node go on, from the threshold on
abbrev pub WithinThreshold : Result (List UsageBucket) → Bool → Option ℕ → Type 0
WithinThreshold usage passed limit =
    (limit ≡ none)
    ⊎ (passed ≡ true)
    ⊎ ((bs : List UsageBucket) × (threshold : ℕ) × (usage ≡ ok bs)
        × (limit ≡ some threshold)
        × (spent_of bs < threshold))

check_spend-none :
    (abort : Bool) (spent threshold : ℕ)
    → check_spend abort spent threshold ≡ none
    → spent < threshold
unfolding check_spend
check_spend-none abort spent threshold h = ground arith

check_threshold-none :
    (usage : Result (List UsageBucket)) (abort passed : Bool) (limit : Option ℕ)
    → check_threshold usage abort passed limit ≡ ok none
    → WithinThreshold usage passed limit
unfolding check_threshold
check_threshold-none usage abort passed none h = inl refl
check_threshold-none usage abort true (some threshold) h = inr (inl refl)
check_threshold-none (ok bs) abort false (some threshold) h =
    inr (inr (bs, threshold, refl, refl, check_spend-none abort (spent_of bs) threshold (cc h)))
check_threshold-none (err e) abort false (some threshold) h = absurd (cc h)

-- the policy asks for no check
abbrev pub IsUnchecked : TaskRunState → Type 0
IsUnchecked s =
    (is_text (field_of s "_budget_policy") "gate_on_threshold"
      || is_text (field_of s "_budget_policy") "abort_on_threshold")
    ≡ false

-- If the budget check lets a node go on, then no repository is wired, or the task's policy is
-- neither of the two that are checked, or it has no positive threshold, or its gate was passed, or
-- the cost of the task, summed over the buckets, is below the threshold.
pub budget_sound :
    (usage : Option (Result (List UsageBucket))) (n : String) (s : TaskRunState)
    → check_budget_policy usage n s ≡ ok none
    → (usage ≡ none)
      ⊎ IsUnchecked s
      ⊎ ((answer : Result (List UsageBucket)) × (usage ≡ some answer)
          × WithinThreshold answer
              (to_bool (field_of s "_budget_gate_passed"))
              (positive (field_of s "_budget_threshold_micros")))
unfolding check_budget_policy
budget_sound none n s h = inl refl
budget_sound (some usage) n s h = elim (Bool-cases checked) [
  | inr unchecked ↦ inr (inl unchecked)
  | inl on ↦ elim (Bool-cases approved) [
    | inl yes_approved ↦ absurd (cc (rw (on, yes_approved) at h))
    | inr not_approved ↦ elim (Bool-cases rejected) [
      | inl yes_rejected ↦ absurd (cc (rw (on, not_approved, yes_rejected) at h))
      | inr not_rejected ↦ inr (
          inr (
            usage,
            refl,
            check_threshold-none usage (is_text (field_of s "_budget_policy") "abort_on_threshold")
                _ _ (rw (on, not_approved, not_rejected) at h),
          ))
    ]
  ]
]
  where
    checked : Bool
    checked =
        is_text (field_of s "_budget_policy") "gate_on_threshold"
        || is_text (field_of s "_budget_policy") "abort_on_threshold"

    at_budget : Bool
    at_budget = is_text (field_of s human_gate_at_key) budget_gate_id

    approved : Bool
    approved = at_budget && is_text (field_of s human_decision_key) "approve"

    rejected : Bool
    rejected = at_budget && is_text (field_of s human_decision_key) "reject"
