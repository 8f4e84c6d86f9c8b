-- ===== src/Examples/Registering.antt =====
-- Examples for Registry.
use meta_agent.Common.{◌≡◌, refl, true, none, some, [], ◌∷◌}
use meta_agent.Errors.{ok}
use meta_agent.Dict.{get, has, put}
use meta_agent.Task.{TaskType, type_value}
use meta_agent.Graph.{Graph, compile, all_have_edges}
use meta_agent.Registry.{
  GraphFactory, GraphRegistry, no_graphs, built, build_all, materialize, resolve_graph,
}
use meta_agent.Registry.Ready.{Ready, resolve-Ready}
use meta_agent.Examples.Graphs.{echo}

abbrev factory : GraphFactory (Unit {0})
factory u = ok echo

abbrev registered : GraphRegistry (Unit {0})
registered = record (no_graphs (Unit {0})) {
  factories = ("echo", factory) ∷ [];
  defaults = ("system_echo", "echo") ∷ [];
}

materialized_there : (materialize tt registered).0 ≡ ok tt
unfolding materialize build_all built compile all_have_edges get put
materialized_there = refl

asked : get registered.defaults (type_value TaskType.system_echo) ≡ some "echo"
unfolding get type_value
asked = refl

known : has registered.factories "echo" ≡ true
unfolding get
known = refl

resolve-Ready_example :
    (g : Graph) × (resolve_graph (materialize tt registered).1 TaskType.system_echo none ≡ ok g)
    × Ready "echo" g
resolve-Ready_example =
    resolve-Ready tt registered TaskType.system_echo none "echo" materialized_there asked known
