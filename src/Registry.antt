-- ===== src/Registry.antt =====
-- core/orchestration/registry.py: the graphs that the worker may run. A set is a list of its
-- members; a factory is what it returns or raises for the dependencies that it is given.
pub mod Ready
pub mod Defaults
use meta_agent.Common.{
  String, Bool, true, false, not, Option, none, some, List, [], ◌∷◌, ◌==◌, if◌then◌else◌, is_some,
}
use meta_agent.Errors.{Result, ok, err, graph_error, key_error, ◌>>=◌, ◌>>◌, require, expect}
use meta_agent.Dict.{Dict, get, has, put}
use meta_agent.Task.{TaskType, type_value}
use meta_agent.Graph.{Graph, compile}

abbrev pub GraphFactory : Type 0 → Type 0
GraphFactory Deps = Deps → Result Graph

pub record GraphRegistry (Deps : Type 0) : Type 0 where
  pub factories : Dict (GraphFactory Deps)
  pub defaults : Dict String
  pub graphs : Dict Graph
  pub workspaces : List String
  pub materialized : Bool

-- GraphRegistry.__init__
abbrev pub no_graphs : (Deps : Type 0) → GraphRegistry Deps
no_graphs Deps = record {
  factories = [];
  defaults = [];
  graphs = [];
  workspaces = [];
  materialized = false;
}

-- one round of the loop of `materialize`, up to the assignment
unfoldable pub built : String → Result Graph → Result Graph
built graph_id made = do
  graph ← made
  require (graph.graph_id == graph_id) graph_error
  compile graph
  ok graph

module _ {Deps : Type 0} where
  -- the part of `register` that pins the default
  unfoldable pub pin :
      String → Option TaskType → GraphRegistry Deps → Result (Unit {0}) × GraphRegistry Deps
  pin graph_id none r = (ok tt, r)
  pin graph_id (some t) r =
      if has r.defaults (type_value t)
      then (err graph_error, r)
      else (ok tt, record r { defaults = put r.defaults (type_value t) graph_id })

  unfoldable pub register :
      String
      → GraphFactory Deps
      → Option TaskType
      → Bool
      → GraphRegistry Deps
      → Result (Unit {0}) × GraphRegistry Deps
  unfolding pin
  register graph_id factory default_for requires_workspace r =
      if r.materialized
      then (err graph_error, r)
      else if graph_id == ""
      then (err graph_error, r)
      else if has r.factories graph_id
      then (err graph_error, r)
      else pin graph_id default_for (record r {
        factories = put r.factories graph_id factory;
        workspaces = if requires_workspace then graph_id ∷ r.workspaces else r.workspaces;
      })

  unfoldable pub build_all :
      Deps → Dict (GraphFactory Deps) → Dict Graph → Result (Unit {0}) × Dict Graph
  build_all deps [] graphs = (ok tt, graphs)
  build_all deps ((graph_id, factory) ∷ rest) graphs = elim (built graph_id (factory deps)) [
    | err e ↦ (err e, graphs)
    | ok graph ↦ build_all deps rest (put graphs graph_id graph)
  ]

  unfoldable pub materialize : Deps → GraphRegistry Deps → Result (Unit {0}) × GraphRegistry Deps
  materialize deps r =
      let (answer, graphs) = build_all deps r.factories r.graphs in
      if r.materialized then (err graph_error, r) else (
        answer,
        record r { graphs = graphs; materialized = elim answer [ ok u ↦ true | err e ↦ false ] },
      )

  -- GraphRegistry.get
  unfoldable pub get_graph : GraphRegistry Deps → String → Result Graph
  get_graph r graph_id = do
    require r.materialized graph_error
    expect (get r.graphs graph_id) graph_error

  -- the last line of `resolve` is a lookup that raises KeyError
  unfoldable pub resolve_graph : GraphRegistry Deps → TaskType → Option String → Result Graph
  unfolding get_graph
  resolve_graph r t (some graph_id) = do require r.materialized graph_error; get_graph r graph_id
  resolve_graph r t none = do
    require r.materialized graph_error
    graph_id ← expect (get r.defaults (type_value t)) graph_error
    expect (get r.graphs graph_id) key_error

  unfoldable pub default_graph_id : GraphRegistry Deps → TaskType → Option String
  default_graph_id r t = get r.defaults (type_value t)
