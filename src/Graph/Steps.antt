-- ===== src/Graph/Steps.antt =====
-- One step of a built graph: Graph.step of core/orchestration/graph.py.
use meta_agent.Common.{
  ◌+◌, String, ◌≡◌, refl, ◌⊎◌, inl, inr, true, false, ◌||◌, Option, none, some, [], ◌∷◌, ◌==◌,
  eq_iff, arith, if◌then◌else◌, Bool-cases, Option-cases,
}
use mathlib.Core.Path.{subst}
use meta_agent.Errors.{ok, >>=-ok}
use meta_agent.Dict.{Dict, get, has}
use meta_agent.RunState.{TaskRunState, start_node, end_node, advance}
use meta_agent.Graph.{
  NodeFn, RouterFn, NodeResult, Edge, Graph, compile, is_target, all_have_edges, follow_edge,
  resolve_next, apply_result, step,
}
use meta_agent.Graph.Build.{IsWired}

-- the nodes and routers return, and name nodes or END: what the code asks of the functions of a graph
pub record Behaves (g : Graph) : Type 0 where
  pub nodes_return :
      (n : String) (f : NodeFn) (s : TaskRunState)
      → get g.nodes n ≡ some f
      → (r : NodeResult) × (f s ≡ ok r)
  pub overrides_known :
      (n : String) (f : NodeFn) (s : TaskRunState) (r : NodeResult) (d : String)
      → get g.nodes n ≡ some f
      → f s ≡ ok r
      → r.next_node ≡ some d
      → is_target g d ≡ true
  pub routers_known :
      (n : String) (e : Edge) (f : RouterFn) (s : TaskRunState)
      → get g.edges n ≡ some e
      → e.router ≡ some f
      → (d : String) × (f s ≡ ok d) × (is_target g d ≡ true)

-- a run that has not ended stands at START or at a node
abbrev pub IsPlaced : Graph → TaskRunState → Type 0
IsPlaced g s =
    (s.finished ≡ true) ⊎ (s.current_node ≡ start_node) ⊎ (has g.nodes s.current_node ≡ true)

all_have_edges-get :
    (nodes : Dict NodeFn) (edges : Dict Edge) (n : String)
    → all_have_edges nodes edges ≡ true
    → has nodes n ≡ true
    → has edges n ≡ true
unfolding all_have_edges get
all_have_edges-get [] edges n h k = cc
all_have_edges-get ((name, fn) ∷ rest) edges n h k = elim (Bool-cases (name == n)) [
  | inl same ↦ subst (λ x. has edges x ≡ true) ((eq_iff name n).0 same) (ground arith)
  | inr differs ↦ all_have_edges-get rest edges n (ground arith) (rw differs at k)
]

has-some : (d : Dict NodeFn) (n : String) → has d n ≡ true → (f : NodeFn) × (get d n ≡ some f)
has-some d n h = elim (Option-cases (get d n)) [
  | inl missing ↦ absurd (ground arith)
  | inr found ↦ found
]

-- how a step of a live run returns
step-ok :
    (g : Graph) (s t : TaskRunState) (e : String) (f : NodeFn) (r : NodeResult)
    → (s.finished || s.awaiting_approval) ≡ false
    → g.entry ≡ some e
    → get g.nodes (if s.current_node == start_node then e else s.current_node) ≡ some f
    → f s ≡ ok r
    → apply_result g s (if s.current_node == start_node then e else s.current_node) r ≡ ok t
    → step g s ≡ ok t
unfolding step
step-ok g s t e f r live entered at_f returns applied = cc (live, entered, at_f, returns, applied)

compile-edges :
    (g : Graph) (n : String) → compile g ≡ ok tt → has g.nodes n ≡ true → has g.edges n ≡ true
unfolding compile
compile-edges g n h k = all_have_edges-get g.nodes g.edges n (ground arith) k

compile-entry : (g : Graph) → compile g ≡ ok tt → (e : String) × (g.entry ≡ some e)
unfolding compile
compile-entry g h = elim (Option-cases g.entry) [
  | inl missing ↦ absurd (ground arith)
  | inr found ↦ found
]

module _ (g : Graph) (w : IsWired g) (b : Behaves g) where
  -- where an edge leads, whatever kind it is of
  follow-known :
      (n : String) (s : TaskRunState) (e : Edge)
      → get g.edges n ≡ some e
      → (d : String) × (follow_edge g s e ≡ ok d) × (is_target g d ≡ true)
  unfolding follow_edge
  follow-known n s e at_n = elim (Option-cases e.static) [
    | inr (d, fixed_to) ↦ (d, rw fixed_to, w.target_known n e d at_n fixed_to)
    | inl unfixed ↦ elim (Option-cases e.router) [
      | inr (f, routed_by) ↦
          let (d, returns, known) = b.routers_known n e f s at_n routed_by in
          (d, rw (unfixed, routed_by) (rw returns (rw known)), known)
      | inl unrouted ↦ absurd (ground (arith, w.one_kind n e at_n))
    ]
  ]

  resolve-known :
      (n : String) (s : TaskRunState) (next : Option String)
      → has g.edges n ≡ true
      → ((d : String) → next ≡ some d → is_target g d ≡ true)
      → (d : String) × (resolve_next g n s next ≡ ok d) × (is_target g d ≡ true)
  unfolding resolve_next
  resolve-known n s (some d) has_edge known = (d, rw (known d refl), known d refl)
  resolve-known n s none has_edge known = elim (Option-cases (get g.edges n)) [
    | inl missing ↦ absurd (ground arith)
    | inr (e, at_n) ↦ rw at_n (follow-known n s e at_n)
  ]

  ended_or_known :
      (d : String)
      → is_target g d ≡ true
      → ((d == end_node) ≡ true) ⊎ (d ≡ start_node) ⊎ (has g.nodes d ≡ true)
  ended_or_known d target = elim (Bool-cases (d == end_node)) [
    | inl ends ↦ inl ends
    | inr further ↦ inr (inr (ground arith))
  ]

  apply-IsPlaced :
      (n : String) (s : TaskRunState) (r : NodeResult)
      → has g.nodes n ≡ true
      → has g.edges n ≡ true
      → ((d : String) → r.next_node ≡ some d → is_target g d ≡ true)
      → (t : TaskRunState) × (apply_result g s n r ≡ ok t)
        × IsPlaced g t
        × (t.sequence ≡ s.sequence + 1)
  unfolding apply_result
  apply-IsPlaced n s r known has_edge next_known = elim (Bool-cases r.awaiting_approval) [
    | inl pauses ↦ rw pauses (_, refl, inr (inr (unfold advance in known)), unfold advance in refl)
    | inr goes_on ↦
        let s' = advance s n r.data_update none none r.error in
        let (d, resolves, target) = resolve-known n s' r.next_node has_edge next_known in
        rw (goes_on, resolves)
          (
            record s' { current_node = d; finished = d == end_node },
            refl,
            ended_or_known d target,
            unfold advance in refl,
          )
  ]

  -- the node that a step executes
  current_known :
      (s : TaskRunState) (e : String)
      → g.entry ≡ some e
      → s.finished ≡ false
      → IsPlaced g s
      → has g.nodes (if s.current_node == start_node then e else s.current_node) ≡ true
  current_known s e entered live placed = elim (Bool-cases (s.current_node == start_node)) [
    | inl at_start ↦ rw at_start (w.entry_known e entered)
    | inr further ↦ rw further (ground (arith, placed, eq_iff s.current_node start_node))
  ]

  -- On a graph that the building methods made and `compile` accepted, whose nodes and routers
  -- return and name only nodes or END, a step of a run that is neither finished nor paused, and
  -- stands at START or at a node, returns: no lookup fails. The new state is finished or stands at
  -- START or a node, and its sequence number is one higher.
  pub step-IsPlaced :
      (s : TaskRunState)
      → compile g ≡ ok tt
      → (s.finished || s.awaiting_approval) ≡ false
      → IsPlaced g s
      → (t : TaskRunState) × (step g s ≡ ok t) × IsPlaced g t × (t.sequence ≡ s.sequence + 1)
  step-IsPlaced s compiled live placed =
      let (e, entered) = compile-entry g compiled in
      let current = if s.current_node == start_node then e else s.current_node in
      let known = current_known s e entered (ground arith) placed in
      let (f, at_f) = has-some g.nodes current known in
      let (r, returns) = b.nodes_return current f s at_f in
      let (t, applied, still, next) =
        apply-IsPlaced current s r known (compile-edges g current compiled known)
          (λ d h. b.overrides_known current f s r d at_f returns h) in
      (t, step-ok g s t e f r live entered at_f returns applied, still, next)

resolve-error :
    (g : Graph) (s t : TaskRunState) (current : String) (r : NodeResult)
    → apply_result g s current r ≡ ok t
    → t.error ≡ (if r.awaiting_approval then none else r.error)
unfolding apply_result advance
resolve-error g s t current r h = elim (Bool-cases r.awaiting_approval) [
  | inl pauses ↦ ground arith
  | inr goes_on ↦
      let (d, resolved, made) =
        >>=-ok
          (resolve_next g current (advance s current r.data_update none none r.error) r.next_node) _
          (rw goes_on at h) in
      ground arith
]

-- The `error` of the state after a step of a live run is the one that this node returned, and
-- absent when the node pauses: whatever error an earlier node had set is gone.
pub step-error :
    (g : Graph) (s t : TaskRunState) (e : String) (f : NodeFn) (r : NodeResult)
    → (s.finished || s.awaiting_approval) ≡ false
    → g.entry ≡ some e
    → get g.nodes (if s.current_node == start_node then e else s.current_node) ≡ some f
    → f s ≡ ok r
    → step g s ≡ ok t
    → t.error ≡ (if r.awaiting_approval then none else r.error)
unfolding step
step-error g s t e f r live entered at_f returns stepped =
    let current = if s.current_node == start_node then e else s.current_node in
    let applied : apply_result g s current r ≡ ok t = cc (live, entered, at_f, returns, stepped) in
    resolve-error g s t current r applied
