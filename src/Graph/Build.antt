-- ===== src/Graph/Build.antt =====
-- What holds of every graph that the methods of core/orchestration/graph.py build.
use meta_agent.Common.{
  String, ◌≡◌, refl, ◌⊎◌, inl, inr, Bool, true, false, some, List, [], ◌∷◌, ◌==◌, eq_iff, arith,
  is_some, not, ◌||◌, if◌then◌else◌, Bool-cases,
}
use mathlib.Core.Path.{subst}
use meta_agent.Errors.{Result, ok, err, Error, graph_error, require, ◌>>◌}
use meta_agent.Dict.{Dict, get, has, put, get-put}
use meta_agent.RunState.{start_node, end_node}
use meta_agent.Graph.{
  NodeFn, RouterFn, Edge, Graph, new_graph, add_node, set_entry, add_edge, add_conditional,
  is_target, fixed, routed,
}

pub record IsWired (g : Graph) : Type 0 where
  pub no_start : has g.nodes start_node ≡ false
  pub no_end : has g.nodes end_node ≡ false
  pub entry_known : (e : String) → g.entry ≡ some e → has g.nodes e ≡ true
  pub source_known : (n : String) (e : Edge) → get g.edges n ≡ some e → has g.nodes n ≡ true
  pub target_known :
      (n : String) (e : Edge) (d : String)
      → get g.edges n ≡ some e
      → e.static ≡ some d
      → is_target g d ≡ true
  pub one_kind :
      (n : String) (e : Edge)
      → get g.edges n ≡ some e
      → (is_some e.static ≡ true) ⊎ (is_some e.router ≡ true)

-- a call of a building method
pub data BuildCall : Type 0 where
  node : String → NodeFn → BuildCall
  entry : String → BuildCall
  edge : String → String → BuildCall
  conditional : String → RouterFn → BuildCall

abbrev pub call : BuildCall → Graph → Result Graph
call (node name fn) = add_node name fn
call (entry name) = set_entry name
call (edge src dst) = add_edge src dst
call (conditional src router) = add_conditional src router

-- after the call, whether it returned or raised
abbrev pub kept : Graph → Result Graph → Graph
kept g (ok g') = g'
kept g (err e) = g

unfoldable pub build : List BuildCall → Graph → Graph
build [] g = g
build (c ∷ cs) g = build cs (kept g (call c g))

-- A known name stays known.
has-put : (d : Dict NodeFn) (k j : String) (v : NodeFn) → has d j ≡ true → has (put d k v) j ≡ true
has-put d k j v h = simp get-put (ground arith)

abbrev with_edge : Graph → String → Edge → Graph
with_edge g src e = record g { edges = put g.edges src e }

module _ (g : Graph) (w : IsWired g) where
  IsWired-node :
      (name : String) (fn : NodeFn)
      → (name == start_node) ≡ false
      → (name == end_node) ≡ false
      → IsWired (record g { nodes = put g.nodes name fn })
  IsWired-node name fn a b = record {
    no_start = simp get-put (ground (arith, w.no_start));
    no_end = simp get-put (ground (arith, w.no_end));
    entry_known = λ e h. has-put g.nodes name e fn (w.entry_known e h);
    source_known = λ n e h. has-put g.nodes name n fn (w.source_known n e h);
    target_known = λ n e d h k. ground (arith, w.target_known n e d h k, has-put g.nodes name d fn);
    one_kind = w.one_kind;
  }

  IsWired-edge :
      (src : String) (e' : Edge)
      → has g.nodes src ≡ true
      → ((d : String) → e'.static ≡ some d → is_target g d ≡ true)
      → (is_some e'.static ≡ true) ⊎ (is_some e'.router ≡ true)
      → IsWired (record g { edges = put g.edges src e' })
  IsWired-edge src e' known target kind = record {
    no_start = w.no_start;
    no_end = w.no_end;
    entry_known = w.entry_known;
    source_known = λ n e h. elim (Bool-cases (src == n)) [
      | inl same ↦ subst (λ x. has g.nodes x ≡ true) ((eq_iff src n).0 same) known
      | inr differs ↦ w.source_known n e (rw (get-put, differs) at h)
    ];
    target_known = λ n e d h k. elim (Bool-cases (src == n)) [
      | inl same ↦ target d (ground (arith, rw (get-put, same) at h))
      | inr differs ↦ w.target_known n e d (rw (get-put, differs) at h) k
    ];
    one_kind = λ n e h. elim (Bool-cases (src == n)) [
      | inl same ↦ ground (arith, rw (get-put, same) at h)
      | inr differs ↦ w.one_kind n e (rw (get-put, differs) at h)
    ];
  }

  IsWired-entry :
      (name : String) → has g.nodes name ≡ true → IsWired (record g { entry = some name })
  IsWired-entry name known = record {
    no_start = w.no_start;
    no_end = w.no_end;
    entry_known = λ e h. ground arith;
    source_known = w.source_known;
    target_known = w.target_known;
    one_kind = w.one_kind;
  }

  -- a guard of a method: if it raises, the graph is as it was
  IsWired-require :
      (b : Bool) (e : Error) (rest : Result Graph)
      → (b ≡ true → IsWired (kept g rest))
      → IsWired (kept g (require b e >> rest))
  IsWired-require true e rest h = h refl
  IsWired-require false e rest h = w

  IsWired-if_require :
      (a b : Bool) (e : Error) (rest : Result Graph)
      → (a || b ≡ true → IsWired (kept g rest))
      → IsWired (kept g ((if a then ok tt else require b e) >> rest))
  IsWired-if_require true b e rest h = h refl
  IsWired-if_require false b e rest h = IsWired-require b e rest h

call-IsWired : (c : BuildCall) (g : Graph) → IsWired g → IsWired (kept g (call c g))
unfolding add_node set_entry add_edge add_conditional
call-IsWired (node name fn) g w =
    IsWired-require g w (not (name == start_node || name == end_node)) _ _ λ free.
      IsWired-require g w (not (has g.nodes name)) _ _
        λ fresh. IsWired-node g w name fn (ground arith) (ground arith)
call-IsWired (entry name) g w = IsWired-require g w _ _ _ λ known. IsWired-entry g w name known
call-IsWired (edge src dst) g w = IsWired-require g w _ _ _ λ known.
    IsWired-if_require g w (dst == end_node) (has g.nodes dst) _ _ λ target.
      IsWired-require g w (not (has g.edges src)) graph_error (ok (with_edge g src (fixed dst)))
        λ fresh. IsWired-edge g w src (fixed dst) known (λ d h. ground arith) (inl refl)
call-IsWired (conditional src router) g w = IsWired-require g w _ _ _ λ known.
    IsWired-require g w (not (has g.edges src)) graph_error (ok (with_edge g src (routed router)))
      λ fresh. IsWired-edge g w src (routed router) known (λ d h. ground arith) (inr refl)

-- From a graph with no nodes, whatever sequence of building methods is called, those that raise
-- included: the names of the sentinels are no nodes, the entry and the source of every edge are
-- nodes, every fixed destination is a node or END, and every edge has a destination or a router.
pub build-IsWired : (cs : List BuildCall) (g : Graph) → IsWired g → IsWired (build cs g)
unfolding build
build-IsWired [] g w = w
build-IsWired (c ∷ cs) g w = build-IsWired cs (kept g (call c g)) (call-IsWired c g w)

pub new_graph-IsWired : (graph_id : String) (g : Graph) → new_graph graph_id ≡ ok g → IsWired g
unfolding new_graph get
new_graph-IsWired graph_id g h = record {
  no_start = ground arith;
  no_end = ground arith;
  entry_known = λ e k. ground arith;
  source_known = λ n e k. ground arith;
  target_known = λ n e d k l. ground arith;
  one_kind = λ n e k. ground arith;
}
