-- ===== src/Examples/Gating.antt =====
-- Examples for Gates.
use meta_agent.Common.{ℕ, ◌≡◌, refl, ◌⊎◌, true, false, none, some, List, [], ◌∷◌}
use meta_agent.Errors.{Result, ok}
use meta_agent.Dict.{get}
use meta_agent.Value.{int, str, to_bool, positive, ℤ}
use meta_agent.RunState.{TaskRunState, end_node}
use meta_agent.Graph.{is_target, apply_result}
use meta_agent.Gates.{
  human_decision_key, human_gate_at_key, field_of, gate, budget_gate_id, UsageBucket, spent_of,
  check_budget_policy, check_spend, check_threshold,
}
use meta_agent.Gates.Decisions.{IsUnchecked, WithinThreshold, budget_sound}
use meta_agent.Approval.Resume.{after, resumed-gate}
use meta_agent.Examples.Data.{run_state, tenant, checkpoint}
use meta_agent.Examples.Graphs.{echo}

known : is_target echo "work" ≡ true
unfolding get
known = refl

-- a task under a budget of 100, gated and approved
abbrev budgeted : TaskRunState
budgeted = record (run_state "work") {
  data_ =
      ("_budget_policy", str "gate_on_threshold")
      ∷ ("_budget_threshold_micros", int (ℤ.pos 100))
      ∷ [];
}

abbrev regated : TaskRunState
regated = record budgeted {
  data_ =
      ("_budget_policy", str "gate_on_threshold")
      ∷ ("_budget_threshold_micros", int (ℤ.pos 100))
      ∷ (human_gate_at_key, str budget_gate_id)
      ∷ (human_decision_key, str "approve")
      ∷ [];
}

abbrev cost : ℕ → Result (List UsageBucket)
cost n = ok (record { key = none; tokens = 7; cost_usd_micros = n; calls = 1 } ∷ [])

within : check_budget_policy (some (cost 99)) "work" budgeted ≡ ok none
unfolding check_budget_policy check_threshold check_spend spent_of get
within = refl

budget_sound_example :
    (some (cost 99) ≡ none)
    ⊎ IsUnchecked budgeted
    ⊎ ((answer : Result (List UsageBucket)) × (some (cost 99) ≡ some answer)
        × WithinThreshold answer
            (to_bool (field_of budgeted "_budget_gate_passed"))
            (positive (field_of budgeted "_budget_threshold_micros")))
budget_sound_example = budget_sound (some (cost 99)) "work" budgeted within

resumed-gate_example :
    let after =
      after
        (some (tenant "acme"))
        "task.resume"
        "c2"
        "e1"
        9
        "acme"
        "t1"
        (some "go on")
        checkpoint in
    ((after "approve").awaiting_approval ≡ false)
    × ((after "reject").awaiting_approval ≡ false)
    × ((t : TaskRunState) × (apply_result echo
            (after "approve")
            "gate"
            (gate "g1" "work" none (after "approve"))
          ≡ ok t)
        × (t.awaiting_approval ≡ false)
        × (t.current_node ≡ "work"))
    × ((t : TaskRunState) × (apply_result echo
            (after "reject")
            "gate"
            (gate "g1" "work" none (after "reject"))
          ≡ ok t)
        × (t.awaiting_approval ≡ false)
        × (t.current_node ≡ end_node))
resumed-gate_example =
    resumed-gate (some (tenant "acme")) "task.resume" "c2" "e1" 9 "acme" "t1" (some "go on")
      checkpoint echo "g1" "work" none known (λ d h. absurd (cc h))
