-- ===== src/Dict.antt =====
-- Python's `dict` with text keys, as an association list in insertion order: an assignment to a
-- key that is there keeps its place, a new key goes to the end.
use meta_agent.Common.{
  String, ◌≡◌, refl, Bool, Option, none, some, List, [], ◌∷◌, arith, ◌==◌, eq_iff, eq_refl,
  if◌then◌else◌, is_some,
}

abbrev pub Dict {ℓ} : Type ℓ → Type ℓ
Dict V = List (String × V)

module _ {ℓ} {V : Type ℓ} where
  -- d.get(k)
  unfoldable pub get : Dict V → String → Option V
  get [] k = none
  get ((j, v) ∷ d) k = if j == k then some v else get d k

  -- k in d
  abbrev pub has : Dict V → String → Bool
  has d k = is_some (get d k)

  -- d[k] = v
  unfoldable pub put : Dict V → String → V → Dict V
  put [] k v = (k, v) ∷ []
  put ((j, w) ∷ d) k v = if j == k then (k, v) ∷ d else (j, w) ∷ put d k v

  -- d.update(e)
  unfoldable pub update : Dict V → Dict V → Dict V
  update d [] = d
  update d ((k, v) ∷ e) = update (put d k v) e

  pub get-put :
      (d : Dict V) (key asked : String) (v : V)
      → get (put d key v) asked ≡ (if key == asked then some v else get d asked)
  unfolding get put
  get-put [] key asked v = refl
  get-put ((j, w) ∷ d) key asked v =
      ground (arith, get-put d key asked v, eq_iff j key, eq_iff j asked, eq_iff key asked)

  pub get-put_self : (d : Dict V) (k : String) (v : V) → get (put d k v) k ≡ some v
  get-put_self d k v = simp (get-put, eq_refl)
