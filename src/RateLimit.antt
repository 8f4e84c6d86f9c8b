-- ===== src/RateLimit.antt =====
-- infra/ratelimit/in_memory.py: the token bucket. Floats are taken as exact numbers: time in
-- microseconds, tokens in units of 1/`unit` of a token, and the rate in units per microsecond, so a
-- rate of r tokens a second is rate = r * unit / 10^6. The rounding of the floats that the buckets hold
-- is not modelled; the hint of a denial is left to the floats altogether, as `ceil_ms`.
pub mod Keys
pub mod Bound
use meta_agent.Common.{
  ℕ, zero, suc, ◌+◌, ◌-◌, ◌*◌, ◌/◌, min, max, String, Bool, true, false, Option, none, some, [],
  List, ◌∷◌, ltb, leb, if◌then◌else◌,
}
use meta_agent.Errors.{Result, ok, err, value_error}
use meta_agent.Dict.{Dict, get, put}

pub record Limiter : Type 0 where
  pub unit : ℕ
  pub rate : ℕ
  pub burst : ℕ
  pub ceil_ms : ℕ → ℕ

pub record Bucket : Type 0 where
  pub tokens : ℕ
  pub last_refill : ℕ

-- `retry_after_ms` is absent where waiting cannot help
pub record Decision : Type 0 where
  pub allowed : Bool
  pub remaining : ℕ
  pub retry_after_ms : Option ℕ

module _ (l : Limiter) where
  -- the bucket after the refill of `acquire`; a new bucket is full
  unfoldable pub refill : Option Bucket → ℕ → Bucket
  refill none now = record { tokens = l.burst * l.unit; last_refill = now }
  refill (some b) now = record {
    tokens = min (l.burst * l.unit) (b.tokens + (now - b.last_refill) * l.rate);
    last_refill = now;
  }

  -- max(1, math.ceil(deficit / rate * 1000)), where `ceil_ms` is the ceiling of the float
  unfoldable pub retry_ms : ℕ → ℕ
  retry_ms deficit = max 1 (l.ceil_ms deficit)

  unfoldable pub take_tokens : Bucket → ℕ → Bucket × Decision
  unfolding retry_ms
  take_tokens b cost =
      if leb (cost * l.unit) b.tokens
      then (
        record b { tokens = b.tokens - cost * l.unit },
        record {
          allowed = true;
          remaining = (b.tokens - cost * l.unit) / l.unit;
          retry_after_ms = none;
        },
      )
      else (
        b,
        record {
          allowed = false;
          remaining = b.tokens / l.unit;
          retry_after_ms = some (retry_ms (cost * l.unit - b.tokens));
        },
      )

  -- InMemoryTokenBucketRateLimiter.acquire; the lock makes it one step
  unfoldable pub acquire : Dict Bucket → String → ℕ → ℕ → Result Decision × Dict Bucket
  unfolding refill take_tokens
  acquire buckets key cost now =
      if ltb cost 1
      then (err value_error, buckets)
      else if ltb l.burst cost
      then (ok (record { allowed = false; remaining = 0; retry_after_ms = none }), buckets)
      else let (b, decision) = take_tokens (refill (get buckets key) now) cost in
        (ok decision, put buckets key b)
