-- ===== src/Breaker/Sequential.antt =====
-- Calls one after the other through infra/circuitbreaker/in_memory.py.
use meta_agent.Common.{
  ℕ, ◌+◌, ◌-◌, ◌*◌, ◌/◌, max, ◌≤◌, ◌<◌, ◌≡◌, ◌⊎◌, Bool, true, false, [], arith, ltb, length, lt→ltb,
  Option, some, is_some,
}
use meta_agent.Errors.{Error}
use meta_agent.Breaker.{
  Config, Bucket, BreakerState, closed, open_, half_open, fresh, Outcome, returned, threw, value,
  passed_on, circuit_open, call,
}

-- closed below the threshold, or open since a known time
abbrev pub state_fits : Config → BreakerState → Bucket → Bool
state_fits c closed b = ltb (length b.failures) c.failure_threshold
state_fits c open_ b = is_some b.opened_at
state_fits c half_open b = false

-- what holds of a bucket between two calls
pub record IsSettled (c : Config) (b : Bucket) : Type 0 where
  pub fits : state_fits c b.state b ≡ true
  pub no_probe : b.probe_in_flight ≡ false

fresh-IsSettled : (c : Config) → 1 ≤ c.failure_threshold → IsSettled c fresh
fresh-IsSettled c h = ground arith

module _ {ℓ} {A : Type ℓ} (c : Config) (predicate : Option (Error → Bool)) where
  -- With a threshold of at least 1, a call of a bucket that is closed with fewer failures on record
  -- than the threshold, or open with its time of opening, and has no probe marked as in flight,
  -- leaves the bucket so again.
  pub call-IsSettled :
      (b : Bucket) (now later : ℕ) (outcome : Outcome A)
      → IsSettled c b
      → 1 ≤ c.failure_threshold
      → IsSettled c (call c predicate b now later outcome).0
  unfolding call
  call-IsSettled b now later (returned a) s h = ground arith
  call-IsSettled b now later (threw e) s h = ground arith

  -- While the cooldown of an open breaker lasts, a call changes nothing and is answered by
  -- CircuitBreakerOpenError, whatever the protected function would have done; the hint is at
  -- least one millisecond and at most the time that is left, unless that is below one.
  pub call-fails_fast :
      (b : Bucket) (opened now later : ℕ) (outcome : Outcome A)
      → b.state ≡ open_
      → b.opened_at ≡ some opened
      → now < opened + c.cooldown
      → (ms : ℕ) × (call c predicate b now later outcome ≡ (b, circuit_open (some ms)))
        × (1 ≤ ms)
        × ((ms ≤ 1) ⊎ (now + ms * 1000 ≤ opened + c.cooldown))
  unfolding call
  call-fails_fast b opened now later outcome s o h = (
    max 1 ((opened + c.cooldown - now) / 1000),
    rw (s, o) (rw (lt→ltb now (opened + c.cooldown) h)),
    omega arith,
    omega arith,
  )

  -- The first call after the cooldown is the probe: if it returns, the breaker is closed with
  -- nothing on record; if it raises anything, counted or not, the breaker is open from now on.
  pub call-probes :
      (b : Bucket) (opened now later : ℕ) (outcome : Outcome A)
      → b.state ≡ open_
      → b.opened_at ≡ some opened
      → opened + c.cooldown ≤ now
      → call c predicate b now later outcome ≡ (elim outcome [
        | returned a ↦ (fresh, value a)
        | threw e ↦ (
          record { state = open_; failures = []; opened_at = some later; probe_in_flight = false },
          passed_on e,
        )
      ])
  unfolding call
  call-probes b opened now later (returned a) s o h = ground arith
  call-probes b opened now later (threw e) s o h = ground arith
