-- ===== src/Breaker/Window.antt =====
-- The rolling window of infra/circuitbreaker/in_memory.py: the loop that drops old failures keeps
-- exactly the recent ones.
use meta_agent.Common.{
  ℕ, ◌+◌, ◌≤◌, ◌≡◌, refl, Bool, true, false, not, List, [], ◌∷◌, ◌++◌, arith, ltb, leb,
  if◌then◌else◌, length, select, All, some,
}
use meta_agent.Breaker.{Config, Bucket, open_, prune, record_outcome}

-- times in the order of the clock, none after `now`
abbrev pub IsOrdered : List ℕ → ℕ → Type 0
IsOrdered [] now = Unit
IsOrdered (t ∷ ts) now = (t ≤ now) × All (λ u. t ≤ u) ts × IsOrdered ts now

-- not (t < now - window)
abbrev pub recent : Config → ℕ → ℕ → Bool
recent c now t = not (ltb (t + c.window) now)

module _ (c : Config) (now : ℕ) where
  select-All :
      (t : ℕ) (ts : List ℕ)
      → ltb (t + c.window) now ≡ false
      → All (λ u. t ≤ u) ts
      → select (recent c now) ts ≡ ts
  select-All t [] keep later = refl
  select-All t (u ∷ ts) keep later = ground (arith, select-All t ts keep later.1)

  prune-eq-select :
      (ts : List ℕ) (last : ℕ) → IsOrdered ts last → prune c now ts ≡ select (recent c now) ts
  unfolding prune
  prune-eq-select [] last o = refl
  prune-eq-select (t ∷ ts) last o = ground (arith, prune-eq-select ts last o.2, select-All t ts)

IsOrdered-append :
    (ts : List ℕ) (last now : ℕ) → IsOrdered ts last → last ≤ now → IsOrdered (ts ++ now ∷ []) now
IsOrdered-append [] last now o le = (omega arith, tt, tt)
IsOrdered-append (t ∷ ts) last now o le = (
  omega (arith, o.0),
  All-append t ts last now o.1 (omega (arith, o.0)),
  IsOrdered-append ts last now o.2 le,
)
  where
    All-append :
        (t : ℕ) (ts : List ℕ) (last now : ℕ)
        → All (λ u. t ≤ u) ts
        → t ≤ now
        → All (λ u. t ≤ u) (ts ++ now ∷ [])
    All-append t [] last now a le = (le, tt)
    All-append t (u ∷ ts) last now a le = (a.0, All-append t ts last now a.1 le)

-- A counted failure of a call opens the breaker exactly when, with it, at least
-- `failure_threshold` of the failures on record lie in the window that ends now; else the state
-- stays. Either way exactly those failures stay on record. The failures on record are in the order
-- of the clock.
pub record_call-window :
    (c : Config) (b : Bucket) (last now : ℕ)
    → IsOrdered b.failures last
    → last ≤ now
    → let kept = select (recent c now) (b.failures ++ now ∷ []) in
      let b' = record_outcome c b now false true false in
      (b'.failures ≡ kept)
      × (b'.state ≡ (if leb c.failure_threshold (length kept) then open_ else b.state))
      × (b'.opened_at ≡ (if leb c.failure_threshold (length kept) then some now else b.opened_at))
unfolding record_outcome
record_call-window c b last now o le =
    rw
      (prune-eq-select c now (b.failures ++ now ∷ []) now
        (IsOrdered-append b.failures last now o le))
      (ground arith)
