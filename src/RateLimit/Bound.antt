-- ===== src/RateLimit/Bound.antt =====
-- What a key can be granted over time, whatever is asked of the limiter.
use meta_agent.Common.{
  ℕ, ◌+◌, ◌-◌, ◌*◌, ◌≤◌, String, ◌≡◌, List, [], ◌∷◌, Option, none, some, arith, ltb, ◌==◌, eq_iff,
  if◌then◌else◌, Bool-cases, inl, inr, mul_mono,
}
use mathlib.Core.Path.{subst, sym, ap}
use meta_agent.Errors.{Result, ok, err}
use meta_agent.Dict.{Dict, get, get-put_self}
use meta_agent.RateLimit.{Limiter, Bucket, Decision, refill, take_tokens, acquire}
use meta_agent.RateLimit.Keys.{acquire-get_ne}

pub record Request : Type 0 where
  pub key : String
  pub cost : ℕ
  pub now : ℕ

-- the cost that an answer grants
abbrev pub granted : Result Decision → ℕ → ℕ
granted (ok d) cost = if d.allowed then cost else 0
granted (err e) cost = 0

abbrev pub InOrder : ℕ → ℕ → List Request → Type 0
InOrder start stop [] = start ≤ stop
InOrder start stop (r ∷ rs) = (start ≤ r.now) × InOrder r.now stop rs

module _ (l : Limiter) (key : String) where
  -- what `key` is granted over a sequence of calls
  pub grants : Dict Bucket → List Request → ℕ
  grants buckets [] = 0
  grants buckets (r ∷ rs) =
      let (answer, buckets') = acquire l buckets r.key r.cost r.now in
      (if r.key == key then granted answer r.cost else 0) + grants buckets' rs

  -- the tokens that a bucket has, or would have if nothing capped it
  abbrev pub credit : Option Bucket → ℕ → ℕ
  credit none now = l.burst * l.unit
  credit (some b) now = b.tokens + (now - b.last_refill) * l.rate

  credit-later :
      (o : Option Bucket) (now later : ℕ)
      → now ≤ later
      → credit o later ≤ credit o now + (later - now) * l.rate
  credit-later none now later h = omega arith
  credit-later (some b) now later h = omega (
    arith,
    mul_mono (later - b.last_refill) ((now - b.last_refill) + (later - now)) l.rate (omega arith),
  )

  take-credit :
      (o : Option Bucket) (cost now : ℕ)
      → let (b, d) = take_tokens l (refill l o now) cost in
        (credit (some b) now + granted (ok d) cost * l.unit ≤ credit o now)
  unfolding take_tokens refill
  take-credit none cost now = ground arith
  take-credit (some b) cost now = ground arith

  abbrev Covered : Dict Bucket → String → ℕ → ℕ → Type 0
  Covered buckets k cost now =
      credit (get (acquire l buckets k cost now).1 key) now
        + granted (acquire l buckets k cost now).0 cost * l.unit
      ≤ credit (get buckets key) now

  -- what a call grants to the key is taken from its credit
  acquire-credit : (buckets : Dict Bucket) (cost now : ℕ) → Covered buckets key cost now
  unfolding acquire
  acquire-credit buckets cost now = elim (Bool-cases (ltb cost 1)) [
    | inl invalid ↦ rw invalid (omega arith)
    | inr lo ↦ elim (Bool-cases (ltb l.burst cost)) [
      | inl too_large ↦ rw (lo, too_large) (omega arith)
      | inr hi ↦ rw (lo, hi) (rw get-put_self (take-credit (get buckets key) cost now))
    ]
  ]

  InOrder-le : (rs : List Request) (start stop : ℕ) → InOrder start stop rs → start ≤ stop
  InOrder-le [] start stop o = o
  InOrder-le (r ∷ rs) start stop o = omega (arith, o.0, InOrder-le rs r.now stop o.1)

  -- one call's share of the bound
  grants-step :
      (o : Option Bucket) (start now stop spent rest left : ℕ)
      → start ≤ now
      → now ≤ stop
      → left + spent * l.unit ≤ credit o now
      → rest * l.unit ≤ left + (stop - now) * l.rate
      → (spent + rest) * l.unit ≤ credit o start + (stop - start) * l.rate
  grants-step o start now stop spent rest left h k paid ih =
      let split : (stop - start) * l.rate ≡ (now - start) * l.rate + (stop - now) * l.rate =
        omega (arith, ap (λ t. t * l.rate) (apart start now stop h k)) in
      omega (arith, credit-later o start now h, split)
    where
      apart : (a b c : ℕ) → a ≤ b → b ≤ c → c - a ≡ (b - a) + (c - b)
      apart a b c h k = omega arith

  -- In the order of the clock, and from any buckets, the cost that is granted to a key until `stop`
  -- is covered by the tokens that its bucket had at the start, or a full bucket if it had none, and
  -- what was refilled since: `burst` and `rate` bound every interval.
  pub grants-le :
      (buckets : Dict Bucket) (rs : List Request) (start stop : ℕ)
      → InOrder start stop rs
      → grants buckets rs * l.unit ≤ credit (get buckets key) start + (stop - start) * l.rate
  unfolding grants
  grants-le buckets [] start stop o = omega arith
  grants-le buckets (r ∷ rs) start stop o =
      let after = (acquire l buckets r.key r.cost r.now).1 in
      let ih = grants-le after rs r.now stop o.1 in
      let le = InOrder-le rs r.now stop o.1 in
      elim (Bool-cases (r.key == key)) [
        | inl same ↦
            let at_key : Covered buckets r.key r.cost r.now =
              subst (λ k. Covered buckets k r.cost r.now) (sym ((eq_iff r.key key).0 same))
                (acquire-credit buckets r.cost r.now) in
            rw same (
              grants-step (get buckets key) start r.now stop
                (granted (acquire l buckets r.key r.cost r.now).0 r.cost) (grants after rs)
                (credit (get after key) r.now) o.0 le at_key ih)
        | inr differs ↦
            let untouched : get after key ≡ get buckets key =
              acquire-get_ne l buckets r.key key r.cost r.now (ground (arith, eq_iff r.key key)) in
            rw differs (
              grants-step (get buckets key) start r.now stop 0 (grants after rs)
                (credit (get after key) r.now) o.0 le (rw untouched (omega arith)) ih)
      ]
