-- ===== src/Graph.antt =====
-- core/orchestration/graph.py: graphs of node functions, and their step-by-step execution. Node
-- and router functions are values of the graph; either may raise. A method that changes the graph
-- is an action on it.
pub mod Build
pub mod Steps
pub mod Runs
use meta_agent.Common.{
  ℕ, zero, suc, String, Bool, true, false, not, ◌&&◌, ◌||◌, Option, none, some, [], List, ◌∷◌, ◌==◌,
  if◌then◌else◌,
}
use meta_agent.Errors.{
  Result, ok, err, Error, graph_error, key_error, failure, ◌>>=◌, ◌>>◌, require, expect,
}
use meta_agent.Dict
use meta_agent.Dict.{Dict, get, has, put}
use meta_agent.Value.{Value}
use meta_agent.RunState.{TaskRunState, start_node, end_node, advance}

pub record NodeResult : Type 0 where
  pub data_update : Dict Value
  pub next_node : Option String
  pub awaiting_approval : Bool
  pub error : Option String

-- An asynchronous node as the function of the state that one run shows. What the models, tools and
-- tables answer while the node runs, and the exceptions that they raise, is in its value. Each step of
-- a run has a sequence number of its own, so every run of the code is the run of such a function;
-- what a node changes outside the state is not modelled.
abbrev pub NodeFn : Type 0
NodeFn = TaskRunState → Result NodeResult

abbrev pub RouterFn : Type 0
RouterFn = TaskRunState → Result String

pub record Edge : Type 0 where
  pub static : Option String
  pub router : Option RouterFn

-- the two ways that the building methods make an edge
abbrev pub fixed : String → Edge
fixed dst = record { static = some dst; router = none }

abbrev pub routed : RouterFn → Edge
routed router = record { static = none; router = some router }

pub record Graph : Type 0 where
  pub graph_id : String
  pub nodes : Dict NodeFn
  pub edges : Dict Edge
  pub entry : Option String

-- Graph.__init__
unfoldable pub new_graph : String → Result Graph
new_graph graph_id = do
  require (not (graph_id == "")) graph_error
  ok (record { graph_id = graph_id; nodes = []; edges = []; entry = none })

-- a method that raises has changed nothing, so it returns the new graph or the exception
unfoldable pub add_node : String → NodeFn → Graph → Result Graph
add_node name fn g = do
  require (not (name == start_node || name == end_node)) graph_error
  require (not (has g.nodes name)) graph_error
  ok (record g { nodes = put g.nodes name fn })

unfoldable pub set_entry : String → Graph → Result Graph
set_entry name g = do require (has g.nodes name) graph_error; ok (record g { entry = some name })

abbrev require_known : Graph → String → Result (Unit {0})
require_known g name = require (has g.nodes name) graph_error

unfoldable pub add_edge : String → String → Graph → Result Graph
add_edge src dst g = do
  require_known g src
  if dst == end_node then ok tt else require_known g dst
  require (not (has g.edges src)) graph_error
  ok (record g { edges = put g.edges src (fixed dst) })

unfoldable pub add_conditional : String → RouterFn → Graph → Result Graph
add_conditional src router g = do
  require_known g src
  require (not (has g.edges src)) graph_error
  ok (record g { edges = put g.edges src (routed router) })

-- the loop of `compile` over the node names
unfoldable pub all_have_edges : Dict NodeFn → Dict Edge → Bool
all_have_edges [] edges = true
all_have_edges ((name, fn) ∷ rest) edges = has edges name && all_have_edges rest edges

unfoldable pub compile : Graph → Result (Unit {0})
compile g = do expect g.entry graph_error; require (all_have_edges g.nodes g.edges) graph_error

-- `dst != END and dst not in self._nodes`
abbrev pub is_target : Graph → String → Bool
is_target g dst = dst == end_node || has g.nodes dst

-- the edge part of `_resolve_next`; the `assert` is an exception of its own
unfoldable pub follow_edge : Graph → TaskRunState → Edge → Result String
follow_edge g s edge = elim edge.static [
  | some dst ↦ ok dst
  | none ↦ do
    router ← expect edge.router (failure "AssertionError")
    dst ← router s
    require (is_target g dst) graph_error
    ok dst
]

unfoldable pub resolve_next : Graph → String → TaskRunState → Option String → Result String
unfolding follow_edge
resolve_next g current s (some override) = do
  require (is_target g override) graph_error
  ok override
resolve_next g current s none = do
  edge ← expect (get g.edges current) key_error
  follow_edge g s edge

-- `step` once the node has returned
unfoldable pub apply_result : Graph → TaskRunState → String → NodeResult → Result TaskRunState
apply_result g s current result =
    if result.awaiting_approval
    then ok (advance s current result.data_update (some false) (some true) none)
    else do
      let advanced = advance s current result.data_update none none result.error
      next_node ← resolve_next g current advanced result.next_node
      ok (record advanced { current_node = next_node; finished = next_node == end_node })

-- Graph.step
unfoldable pub step : Graph → TaskRunState → Result TaskRunState
step g s = if s.finished || s.awaiting_approval then ok s else do
  entry ← expect g.entry graph_error
  let current = if s.current_node == start_node then entry else s.current_node
  node ← expect (get g.nodes current) graph_error
  result ← node s
  apply_result g s current result

-- Graph.run: the first argument is `max_steps - steps`
unfoldable pub run : ℕ → Graph → TaskRunState → Result TaskRunState
run zero g s = if s.finished || s.awaiting_approval then ok s else err graph_error
run (suc left) g s =
    let rest = step g s >>= run left g in if s.finished || s.awaiting_approval then ok s else rest
