-- ===== src/Breaker.antt =====
-- infra/circuitbreaker/in_memory.py: one key's bucket of the circuit breaker. Times are numbers of
-- microseconds on the monotonic clock, which does not run backwards; a comparison of a difference
-- is written as one of sums. `_gate` and `_record_outcome` hold the bucket's lock, so each is one
-- step.
pub mod Window
pub mod Sequential
pub mod Concurrent
use meta_agent.Common.{
  ℕ, zero, suc, ◌+◌, ◌-◌, ◌*◌, ◌/◌, max, String, Bool, true, false, not, ◌&&◌, ◌||◌, Option, none,
  some, [], List, ◌∷◌, ◌++◌, ◌==◌, ltb, leb, if◌then◌else◌, length,
}
use meta_agent.Errors.{Error, Result, ok, err}

pub data BreakerState : Type 0 where
  closed open_ half_open : BreakerState

pub record Config : Type 0 where
  pub failure_threshold : ℕ
  pub window : ℕ
  pub cooldown : ℕ

-- `_BucketState`; its lock is not modelled, since a critical section is one step
pub record Bucket : Type 0 where
  pub state : BreakerState
  pub failures : List ℕ
  pub opened_at : Option ℕ
  pub probe_in_flight : Bool

abbrev pub fresh : Bucket
fresh = record { state = closed; failures = []; opened_at = none; probe_in_flight = false }

-- what `_gate` answers: the call may proceed, as a probe or not, or CircuitBreakerOpenError with
-- its `retry_after_ms`; `broken` is the failed `assert`
pub data Admission : Type 0 where
  proceed : Bool → Admission
  rejected : Option ℕ → Admission
  broken : Admission

module _ (c : Config) where
  -- `elapsed < cooldown` with `elapsed = now - opened_at`
  abbrev gate_open : Bucket → ℕ → Option ℕ → Bucket × Admission
  gate_open b now none = (b, broken)
  gate_open b now (some opened_at) =
      if ltb now (opened_at + c.cooldown)
      then (b, rejected (some (max 1 ((opened_at + c.cooldown - now) / 1000))))
      else (record b { state = half_open; probe_in_flight = true }, proceed true)

  abbrev gate_in : BreakerState → Bucket → ℕ → Bucket × Admission
  gate_in closed b now = (b, proceed false)
  gate_in open_ b now = gate_open b now b.opened_at
  gate_in half_open b now = (b, rejected none)

  -- InMemoryCircuitBreaker._gate
  unfoldable pub gate : Bucket → ℕ → Bucket × Admission
  gate b now = gate_in b.state b now

  -- the loop that drops the failures before `now - window`
  unfoldable pub prune : ℕ → List ℕ → List ℕ
  prune now [] = []
  prune now (t ∷ ts) = let rest = prune now ts in if ltb (t + c.window) now then rest else t ∷ ts

  -- InMemoryCircuitBreaker._record_outcome, for a call that was no probe
  unfoldable pub record_call : Bucket → ℕ → Bool → Bool → Bucket
  record_call b now success counted =
      if success || not counted
      then b
      else let failures = prune now (b.failures ++ now ∷ []) in
        if leb c.failure_threshold (length failures)
        then record b { failures = failures; state = open_; opened_at = some now }
        else record b { failures = failures }

  -- the part for a probe
  unfoldable pub record_probe : Bucket → ℕ → Bool → Bucket
  record_probe b now success =
      if success
      then record { state = closed; failures = []; opened_at = none; probe_in_flight = false }
      else record { state = open_; failures = []; opened_at = some now; probe_in_flight = false }

  unfoldable pub record_outcome : Bucket → ℕ → Bool → Bool → Bool → Bucket
  unfolding record_call record_probe
  record_outcome b now success counted is_probe =
      if is_probe then record_probe b now success else record_call b now success counted

-- an exception that the protected function raises: cancelled by asyncio, or another
pub data Raised : Type 0 where
  cancelled : Raised
  raised : Error → Raised

-- InMemoryCircuitBreaker._should_count
unfoldable pub should_count : Option (Error → Bool) → Raised → Bool
should_count predicate cancelled = false
should_count none (raised e) = true
should_count (some p) (raised e) = p e

-- what the protected function did
pub data Outcome {ℓ} (A : Type ℓ) : Type ℓ where
  returned : A → Outcome A
  threw : Raised → Outcome A

-- what `call` returns or raises
pub data Answer {ℓ} (A : Type ℓ) : Type ℓ where
  value : A → Answer A
  passed_on : Raised → Answer A
  circuit_open : Option ℕ → Answer A
  assertion : Answer A

module _ {ℓ} {A : Type ℓ} (c : Config) (predicate : Option (Error → Bool)) where
  abbrev settle : Bucket → ℕ → Bool → Outcome A → Bucket × Answer A
  settle b now is_probe (returned a) = (record_outcome c b now true false is_probe, value a)
  settle b now is_probe (threw e) =
      (record_outcome c b now false (should_count predicate e) is_probe, passed_on e)

  abbrev admitted : Admission → Bucket → ℕ → Outcome A → Bucket × Answer A
  admitted (proceed is_probe) b later outcome = settle b later is_probe outcome
  admitted (rejected retry) b later outcome = (b, circuit_open retry)
  admitted broken b later outcome = (b, assertion)

  -- InMemoryCircuitBreaker.call with no other call of its key in between: gate at `now`, the
  -- function's outcome recorded at `later`
  unfoldable pub call : Bucket → ℕ → ℕ → Outcome A → Bucket × Answer A
  unfolding gate record_outcome should_count
  call b now later outcome =
      let (b', admission) = gate c b now in admitted admission b' later outcome
