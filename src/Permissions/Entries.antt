-- ===== src/Permissions/Entries.antt =====
-- The dictionaries of infra/permission/in_memory.py: tests on every entry, and removed keys.
use meta_agent.Common.{
  String, ◌≡◌, refl, ap, sym, ◌∙◌, Bool, true, ◌&&◌, none, some, [], ◌∷◌, arith, ◌==◌, eq_iff,
  if◌then◌else◌, Bool-cases, inl, inr,
}
use meta_agent.Dict.{Dict, get, put}
use meta_agent.Permissions.{pop}

pub left_of : (a b : Bool) → (a && b) ≡ true → a ≡ true
left_of a b h = ground arith

pub right_of : (a b : Bool) → (a && b) ≡ true → b ≡ true
right_of a b h = ground arith

module _ {ℓ} {V : Type ℓ} (p : String → V → Bool) where
  unfoldable pub all_entries : Dict V → Bool
  all_entries [] = true
  all_entries ((k, v) ∷ d) = p k v && all_entries d

  pub all_entries-put :
      (d : Dict V) (k : String) (v : V)
      → all_entries d ≡ true
      → p k v ≡ true
      → all_entries (put d k v) ≡ true
  unfolding all_entries put
  all_entries-put [] k v h hv = rw hv refl
  all_entries-put ((j, w) ∷ d) k v h hv = ground (arith, h, hv, all_entries-put d k v)

  pub all_entries-pop :
      (d : Dict V) (k : String) → all_entries d ≡ true → all_entries (pop d k) ≡ true
  unfolding all_entries pop
  all_entries-pop [] k h = refl
  all_entries-pop ((j, w) ∷ d) k h = ground (arith, h, all_entries-pop d k)

  pub all_entries-get :
      (d : Dict V) (k : String) (v : V) → all_entries d ≡ true → get d k ≡ some v → p k v ≡ true
  unfolding all_entries get
  all_entries-get [] k v h found = absurd (cc found)
  all_entries-get ((j, w) ∷ d) k v h found = elim (Bool-cases (j == k)) [
    | inl hit ↦
        let same : w ≡ v = cc (rw hit at found) in
        let key : j ≡ k = ground (arith, hit, eq_iff j k) in
        ap (λ x. p x v) (sym key) ∙ (ap (p j) (sym same) ∙ left_of (p j w) _ h)
    | inr miss ↦ all_entries-get d k v (right_of (p j w) _ h) (rw miss at found)
  ]

pub get-pop :
    {V : Type 0} (d : Dict V) (key asked : String)
    → get (pop d key) asked ≡ (if key == asked then none else get d asked)
unfolding get pop
get-pop [] key asked = ground arith
get-pop ((j, w) ∷ d) key asked =
    ground (arith, get-pop d key asked, eq_iff j key, eq_iff j asked, eq_iff key asked)
