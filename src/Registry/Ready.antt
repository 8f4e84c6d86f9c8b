-- ===== src/Registry/Ready.antt =====
-- What core/orchestration/registry.py hands to the worker.
use mathlib.Core.Path.{subst}
use meta_agent.Common.{
  String, ◌≡◌, refl, ap, ◌∙◌, ◌⊎◌, inl, inr, true, Option, none, some, [], ◌∷◌, ◌==◌, eq_iff, arith,
  Bool-cases,
}
use meta_agent.Errors.{Result, ok, err, Result-cases}
use meta_agent.Dict.{Dict, get, has, put, get-put}
use meta_agent.Task.{TaskType, type_value}
use meta_agent.Graph.{Graph, compile}
use meta_agent.Registry.{
  GraphFactory, GraphRegistry, built, build_all, materialize, resolve_graph, get_graph,
}

-- a graph that the worker can run under this id
abbrev pub Ready : String → Graph → Type 0
Ready id g = (g.graph_id ≡ id) × (compile g ≡ ok tt)

abbrev pub IsReadyIn : Dict Graph → String → Type 0
IsReadyIn graphs id = (g : Graph) × (get graphs id ≡ some g) × Ready id g

built-Ready : (id : String) (made : Result Graph) (g : Graph) → built id made ≡ ok g → Ready id g
unfolding built
built-Ready id (err e) g h = absurd (cc h)
built-Ready id (ok made) g h = ground (arith, eq_iff made.graph_id id)

put-IsReadyIn :
    (graphs : Dict Graph) (id other : String) (g : Graph)
    → Ready id g
    → (id ≡ other) ⊎ IsReadyIn graphs other
    → IsReadyIn (put graphs id g) other
put-IsReadyIn graphs id other g ready known = elim (Bool-cases (id == other)) [
  | inl hit ↦
      let same : id ≡ other = (eq_iff id other).0 hit in
      (g, get-put graphs id other g ∙ rw hit refl, (ready.0 ∙ same, ready.1))
  | inr miss ↦ elim known [
    | inl same ↦ absurd (ground (arith, (eq_iff id other).1 same))
    | inr (there, found, good) ↦ (there, get-put graphs id other g ∙ rw miss found, good)
  ]
]

module _ {Deps : Type 0} (deps : Deps) where
  build_all-ok :
      (i : String) (f : GraphFactory Deps) (rest : Dict (GraphFactory Deps))
      (graphs after : Dict Graph)
      → build_all deps ((i, f) ∷ rest) graphs ≡ (ok tt, after)
      → (g : Graph) × (built i (f deps) ≡ ok g)
        × (build_all deps rest (put graphs i g) ≡ (ok tt, after))
  unfolding build_all
  build_all-ok i f rest graphs after h = elim (Result-cases (built i (f deps))) [
    | inl (e, failed) ↦ absurd (cc (h, failed))
    | inr (g, made) ↦ (g, made, cc (h, made))
  ]

  -- the ids that are still to be built, or are ready already
  still :
      (i id : String) (f : GraphFactory Deps) (rest : Dict (GraphFactory Deps))
      (graphs : Dict Graph) (g : Graph)
      → Ready i g
      → (has ((i, f) ∷ rest) id ≡ true) ⊎ IsReadyIn graphs id
      → (has rest id ≡ true) ⊎ IsReadyIn (put graphs i g) id
  unfolding get
  still i id f rest graphs g ready (inr there) = inr (put-IsReadyIn graphs i id g ready (inr there))
  still i id f rest graphs g ready (inl known) = elim (Bool-cases (i == id)) [
    | inl hit ↦ inr (put-IsReadyIn graphs i id g ready (inl ((eq_iff i id).0 hit)))
    | inr miss ↦ inl (rw miss at known)
  ]

  build_all-IsReadyIn :
      (factories : Dict (GraphFactory Deps)) (graphs after : Dict Graph) (id : String)
      → build_all deps factories graphs ≡ (ok tt, after)
      → (has factories id ≡ true) ⊎ IsReadyIn graphs id
      → IsReadyIn after id
  unfolding build_all get
  build_all-IsReadyIn [] graphs after id h (inl known) = absurd (cc known)
  build_all-IsReadyIn [] graphs after id h (inr there) =
      let same : graphs ≡ after = cc h in subst (λ x. IsReadyIn x id) same there
  build_all-IsReadyIn ((i, f) ∷ rest) graphs after id h known =
      let (g, made, others) = build_all-ok i f rest graphs after h in
      build_all-IsReadyIn rest (put graphs i g) after id others
        (still i id f rest graphs g (built-Ready i (f deps) g made) known)

module _ {Deps : Type 0} where
  -- the id that a task asks for: its own, or the default of its type
  abbrev pub asked_for : GraphRegistry Deps → TaskType → Option String → Option String
  asked_for r t (some id) = some id
  asked_for r t none = get r.defaults (type_value t)

  materialized-ok :
      (deps : Deps) (r : GraphRegistry Deps)
      → (materialize deps r).0 ≡ ok tt
      → (build_all deps r.factories r.graphs ≡ (ok tt, (materialize deps r).1.graphs))
        × ((materialize deps r).1.materialized ≡ true)
        × ((materialize deps r).1.defaults ≡ r.defaults)
  unfolding materialize
  materialized-ok deps r h = (ground arith, ground arith, ground arith)

  asked-same :
      (r r' : GraphRegistry Deps) (t : TaskType) (o : Option String) {id : String}
      → r'.defaults ≡ r.defaults
      → asked_for r t o ≡ some id
      → asked_for r' t o ≡ some id
  asked-same r r' t none same asked = ap (λ d. get d (type_value t)) same ∙ asked
  asked-same r r' t (some i) same asked = asked

  resolve-found :
      (r : GraphRegistry Deps) (t : TaskType) (o : Option String) (id : String) (g : Graph)
      → r.materialized ≡ true
      → asked_for r t o ≡ some id
      → get r.graphs id ≡ some g
      → resolve_graph r t o ≡ ok g
  unfolding resolve_graph get_graph
  resolve-found r t none id g live asked found = rw (live, asked) (rw found refl)
  resolve-found r t (some i) id g live asked found =
      let same : i ≡ id = cc asked in rw (live, same) (rw found refl)

  -- After a `materialize` that returned, a task that asks for a registered id, itself or by the
  -- default of its type, is given a graph of that id that compiles.
  pub resolve-Ready :
      (deps : Deps) (r : GraphRegistry Deps) (t : TaskType) (o : Option String) (id : String)
      → (materialize deps r).0 ≡ ok tt
      → asked_for r t o ≡ some id
      → has r.factories id ≡ true
      → (g : Graph) × (resolve_graph (materialize deps r).1 t o ≡ ok g) × Ready id g
  resolve-Ready deps r t o id h asked known =
      let (all, live, same) = materialized-ok deps r h in
      let (g, found, ready) = build_all-IsReadyIn deps r.factories r.graphs _ id all (inl known) in
      (
        g,
        resolve-found (materialize deps r).1 t o id g live
            (asked-same r (materialize deps r).1 t o same asked) found,
        ready,
      )
