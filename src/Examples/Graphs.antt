-- ===== src/Examples/Graphs.antt =====
-- Examples for Graph: a graph of one node.
use mathlib.Core.Path.{sym, subst}
use meta_agent.Common.{
  ℕ, ◌+◌, ◌≤◌, ◌<◌, String, ◌≡◌, refl, ap, inl, inr, true, false, none, some, List, [], ◌∷◌, arith,
  if◌then◌else◌,
}
use meta_agent.Errors.{ok}
use meta_agent.Dict.{get, put, update}
use meta_agent.RunState.{TaskRunState, start_node, end_node, advance}
use meta_agent.Graph.{
  NodeFn, NodeResult, Edge, Graph, fixed, compile, step, run, add_node, set_entry, add_edge,
  apply_result, resolve_next, follow_edge, all_have_edges,
}
use meta_agent.Graph.Build.{IsWired, BuildCall, node, entry, edge, build, build-IsWired}
use meta_agent.Graph.Steps.{Behaves, IsPlaced, step-IsPlaced}
use meta_agent.Graph.Runs.{Steps, is_over, run_sound, run-total}
use meta_agent.Examples.Data.{run_state}

abbrev work_result : NodeResult
work_result = record {
  data_update = [];
  next_node = none;
  awaiting_approval = false;
  error = some "slow";
}

abbrev work : NodeFn
work = λ s. ok work_result

abbrev empty : Graph
empty = record { graph_id = "echo"; nodes = []; edges = []; entry = none }

abbrev calls : List BuildCall
calls = node "work" work ∷ entry "work" ∷ edge "work" end_node ∷ edge "work" "nowhere" ∷ []

abbrev pub echo : Graph
echo = record {
  graph_id = "echo";
  nodes = ("work", work) ∷ [];
  edges = ("work", fixed end_node) ∷ [];
  entry = some "work";
}

empty-IsWired : IsWired empty
unfolding get
empty-IsWired = record {
  no_start = refl;
  no_end = refl;
  entry_known = λ e k. ground arith;
  source_known = λ n e k. ground arith;
  target_known = λ n e d k l. ground arith;
  one_kind = λ n e k. ground arith;
}

build-IsWired_example : IsWired (build calls empty)
build-IsWired_example = build-IsWired calls empty empty-IsWired

built : build calls empty ≡ echo
unfolding build add_node set_entry add_edge get put
built = refl

echo-IsWired : IsWired echo
echo-IsWired = subst IsWired built (build-IsWired calls empty empty-IsWired)

compiled : compile echo ≡ ok tt
unfolding compile all_have_edges get
compiled = refl

the_node : (n : String) (f : NodeFn) → get echo.nodes n ≡ some f → work ≡ f
unfolding get
the_node n f h = ground arith

answers :
    (n : String) (f : NodeFn) (s : TaskRunState) → get echo.nodes n ≡ some f → ok work_result ≡ f s
answers n f s h = ap (λ (g : NodeFn). g s) (the_node n f h)

the_edge : (n : String) (e : Edge) → get echo.edges n ≡ some e → fixed end_node ≡ e
unfolding get
the_edge n e h = ground arith

no_override : (r : NodeResult) (d : String) → work_result ≡ r → r.next_node ≡ some d → ⊥
no_override r d h k = cc

echo-Behaves : Behaves echo
echo-Behaves = record {
  nodes_return = λ n f s h. (work_result, sym (answers n f s h));
  overrides_known = λ n f s r d h k l. absurd (no_override r d (cc (answers n f s h, k)) l);
  routers_known = λ n e f s h k. absurd (cc (the_edge n e h, k));
}

abbrev start : TaskRunState
start = run_state start_node

step-IsPlaced_example :
    (t : TaskRunState) × (step echo start ≡ ok t)
    × IsPlaced echo t
    × (t.sequence ≡ start.sequence + 1)
step-IsPlaced_example =
    step-IsPlaced echo echo-IsWired echo-Behaves start compiled refl (inr (inl refl))

abbrev rank : TaskRunState → ℕ
rank s = if s.finished then 0 else 1

falls : (s t : TaskRunState) → is_over s ≡ false → step echo s ≡ ok t → rank t < rank s
unfolding step apply_result resolve_next follow_edge get advance
falls s t live h = ground arith

run-total_example : (t : TaskRunState) × (run 5 echo start ≡ ok t)
run-total_example =
    run-total 5 echo rank start echo-IsWired echo-Behaves compiled falls (inr (inl refl))
      (omega arith)

abbrev end_state : TaskRunState
end_state = record start {
  current_node = end_node;
  sequence = 1;
  finished = true;
  error = some "slow";
}

ran : run 5 echo start ≡ ok end_state
unfolding run step apply_result resolve_next follow_edge get advance update
ran = refl

run_sound_example : (is_over end_state ≡ true) × ((k : ℕ) × (k ≤ 5) × Steps echo k start end_state)
run_sound_example = run_sound 5 echo start end_state ran
