-- ===== src/Registry/Defaults.antt =====
-- Registration in core/orchestration/registry.py, and the defaults that it pins.
use meta_agent.Common.{
  String, ◌≡◌, refl, ◌∙◌, ◌⊎◌, inl, inr, Bool, true, false, Option, none, some, List, [], ◌∷◌, ◌==◌,
  arith, if◌then◌else◌, Bool-cases,
}
use meta_agent.Errors.{err, graph_error}
use meta_agent.Dict.{Dict, get, has, put, get-put, get-put_self}
use meta_agent.Task.{TaskType, type_value}
use meta_agent.Registry.{GraphFactory, GraphRegistry, pin, register}

-- every default is the id of a factory
abbrev pub HasDefaults : {Deps : Type 0} → GraphRegistry Deps → Type 0
HasDefaults r =
    (t : TaskType)
    → (get r.defaults (type_value t) ≡ none)
      ⊎ ((id : String) × (get r.defaults (type_value t) ≡ some id) × (has r.factories id ≡ true))

-- a call of `register`
pub record Registration (Deps : Type 0) : Type 0 where
  pub graph_id : String
  pub factory : GraphFactory Deps
  pub default_for : Option TaskType
  pub requires_workspace : Bool

module _ {Deps : Type 0} where
  -- calls of `register`, those that raise included
  unfoldable pub register_all : List (Registration Deps) → GraphRegistry Deps → GraphRegistry Deps
  register_all [] r = r
  register_all (c ∷ cs) r =
      register_all cs (register c.graph_id c.factory c.default_for c.requires_workspace r).1

  has-put :
      (d : Dict (GraphFactory Deps)) (k j : String) (v : GraphFactory Deps)
      → has d j ≡ true
      → has (put d k v) j ≡ true
  has-put d k j v h = simp get-put (ground arith)

  pin-HasDefaults :
      (id : String) (o : Option TaskType) (r : GraphRegistry Deps)
      → has r.factories id ≡ true
      → HasDefaults r
      → HasDefaults (pin id o r).1
  unfolding pin
  pin-HasDefaults id none r known h = h
  pin-HasDefaults id (some t) r known h = λ t'. elim (Bool-cases (has r.defaults (type_value t))) [
    | inl taken ↦ rw taken (h t')
    | inr free ↦ rw free (elim (Bool-cases (type_value t == type_value t')) [
      | inl hit ↦
          inr (id, get-put r.defaults (type_value t) (type_value t') id ∙ rw hit refl, known)
      | inr miss ↦ rw (get-put r.defaults (type_value t) (type_value t') id, miss) (h t')
    ])
  ]

  register-HasDefaults :
      (id : String) (f : GraphFactory Deps) (o : Option TaskType) (w : Bool)
      (r : GraphRegistry Deps)
      → HasDefaults r
      → HasDefaults (register id f o w r).1
  unfolding register
  register-HasDefaults id f o w r h = elim (Bool-cases r.materialized) [
    | inl over ↦ rw over h
    | inr before ↦ rw before (elim (Bool-cases (id == "")) [
      | inl empty ↦ rw empty h
      | inr named ↦ rw named (elim (Bool-cases (has r.factories id)) [
        | inl taken ↦ rw taken h
        | inr free ↦ rw free (
            pin-HasDefaults id o _ (rw (get-put_self r.factories id f) refl) (λ t. elim (h t) [
              | inl missing ↦ inl missing
              | inr (i, pinned, known) ↦ inr (i, pinned, has-put r.factories id i f known)
            ]))
      ])
    ])
  ]

  -- Whatever calls of `register` are made, those that raise included: if every default named a
  -- registered graph before them, so it does after them.
  pub register_all-HasDefaults :
      (cs : List (Registration Deps)) (r : GraphRegistry Deps)
      → HasDefaults r
      → HasDefaults (register_all cs r)
  unfolding register_all
  register_all-HasDefaults [] r h = h
  register_all-HasDefaults (c ∷ cs) r h =
      register_all-HasDefaults cs _
        (register-HasDefaults c.graph_id c.factory c.default_for c.requires_workspace r h)

  refused :
      (id : String) (f : GraphFactory Deps) (t : TaskType) (w : Bool) (r : GraphRegistry Deps)
      → r.materialized ≡ false
      → (id == "") ≡ false
      → has r.factories id ≡ false
      → has r.defaults (type_value t) ≡ true
      → register id f (some t) w r ≡ (
        err graph_error,
        record r {
          factories = put r.factories id f;
          workspaces = if w then id ∷ r.workspaces else r.workspaces;
        },
      )
  unfolding register pin
  refused id f t w r before named fresh taken = ground arith

  refused_again :
      (id : String) (f : GraphFactory Deps) (w : Bool) (r : GraphRegistry Deps)
      → has r.factories id ≡ true
      → register id f none w r ≡ (err graph_error, r)
  unfolding register
  refused_again id f w r known = ground arith

  -- Before `materialize`, a `register` of a fresh id that is refused because its type has a default
  -- already has added the factory all the same: the same call made again without the default is
  -- refused as well.
  pub register_leaves :
      (id : String) (f : GraphFactory Deps) (t : TaskType) (w : Bool) (r : GraphRegistry Deps)
      → r.materialized ≡ false
      → (id == "") ≡ false
      → has r.factories id ≡ false
      → has r.defaults (type_value t) ≡ true
      → let after = (register id f (some t) w r).1 in
        ((register id f (some t) w r).0 ≡ err graph_error)
        × (get after.factories id ≡ some f)
        × (register id f none w after ≡ (err graph_error, after))
  register_leaves id f t w r before named fresh taken =
      rw (refused id f t w r before named fresh taken) (
        refl,
        get-put_self r.factories id f,
        refused_again id f w _ (rw (get-put_self r.factories id f) refl),
      )
