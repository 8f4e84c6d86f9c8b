-- ===== src/Approval/Resume.antt =====
-- What the decision that infra/persistence/approval_gateway.py stores does when the run goes on at
-- the human gate that it was paused at.
use meta_agent.Common.{ℕ, ◌+◌, String, ◌≡◌, refl, true, false, Option, none, some, eq_refl}
use meta_agent.Errors.{ok}
use meta_agent.Dict.{get-put}
use meta_agent.Value.{str, is_text}
use meta_agent.Context.{RequestContext}
use meta_agent.RunState.{TaskRunState, end_node}
use meta_agent.Graph.{Graph, is_target, apply_result}
use meta_agent.Gates.{gate, field_of, human_decision_key}
use meta_agent.Gates.Decisions.{gate_approves, gate_rejects}
use meta_agent.Db.{TaskCheckpoint}
use meta_agent.Approval.{merge_decision, resumed}

merge_decision-field :
    (s : TaskRunState) (decision : String) (feedback : Option String) (n : ℕ)
    → field_of (merge_decision s decision feedback n) human_decision_key ≡ str decision
unfolding merge_decision
merge_decision-field s decision none n = simp get-put
merge_decision-field s decision (some text) n = simp get-put

merge_decision-awake :
    (s : TaskRunState) (decision : String) (feedback : Option String) (n : ℕ)
    → (merge_decision s decision feedback n).awaiting_approval ≡ false
unfolding merge_decision
merge_decision-awake s decision none n = refl
merge_decision-awake s decision (some text) n = refl

module _ (bound : Option RequestContext) (topic checkpoint_id event_id : String) (now : ℕ)
    (tenant_id task_id : String) (feedback : Option String) (c : TaskCheckpoint) where
  -- the state that the worker resumes from after a decision
  abbrev pub after : String → TaskRunState
  after decision =
      (resumed bound topic checkpoint_id event_id now tenant_id task_id decision feedback
        c).state_snapshot

  after-field : (decision : String) → field_of (after decision) human_decision_key ≡ str decision
  unfolding resumed
  after-field decision = merge_decision-field c.state_snapshot decision feedback (c.sequence + 1)

  after-awake : (decision : String) → (after decision).awaiting_approval ≡ false
  unfolding resumed
  after-awake decision = merge_decision-awake c.state_snapshot decision feedback (c.sequence + 1)

  says :
      (decision : String) → is_text (field_of (after decision) human_decision_key) decision ≡ true
  says decision = rw (after-field decision) (eq_refl decision)

  -- A run that goes on from the checkpoint that an approval or a rejection stored, with any feedback
  -- and whatever its snapshot held before, is not paused, and at a human gate of any id, also one
  -- other than the gate that the snapshot names as the one it was paused at, it does what was decided:
  -- an approval leads to the node named for approval, and a rejection to the one named for rejection,
  -- or to END if none is, where the nodes named are nodes or END; neither pauses again.
  pub resumed-gate :
      (g : Graph) (gate_id approved : String) (rejected : Option String)
      → is_target g approved ≡ true
      → ((d : String) → rejected ≡ some d → is_target g d ≡ true)
      → ((after "approve").awaiting_approval ≡ false)
        × ((after "reject").awaiting_approval ≡ false)
        × ((t : TaskRunState) × (apply_result g
                (after "approve")
                c.node_name
                (gate gate_id approved rejected (after "approve"))
              ≡ ok t)
            × (t.awaiting_approval ≡ false)
            × (t.current_node ≡ approved))
        × ((t : TaskRunState) × (apply_result g
                (after "reject")
                c.node_name
                (gate gate_id approved rejected (after "reject"))
              ≡ ok t)
            × (t.awaiting_approval ≡ false)
            × (t.current_node ≡ (elim rejected [ none ↦ end_node | some d ↦ d ])))
  resumed-gate g gate_id approved rejected known known' =
      let (t, goes, awake, there, ends, pauses) =
        gate_approves g (after "approve") c.node_name gate_id approved rejected (says "approve")
          known in
      let (u, goes', awake', there', rest') =
        gate_rejects g (after "reject") c.node_name gate_id approved rejected (says "reject")
          known' in
      (
        after-awake "approve",
        after-awake "reject",
        (t, goes, awake, there),
        (u, goes', awake', there'),
      )
