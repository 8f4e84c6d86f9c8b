-- ===== src/RateLimit/Keys.antt =====
-- The keys of the token buckets.
use meta_agent.Common.{ℕ, String, ◌≡◌, ◌≢◌, arith, eq_iff}
use meta_agent.Dict.{Dict, get, get-put}
use meta_agent.RateLimit.{Limiter, Bucket, refill, take_tokens, acquire}

module _ (l : Limiter) where
  -- A call for one key leaves the bucket of every other key as it is.
  pub acquire-get_ne :
      (buckets : Dict Bucket) (key other : String) (cost now : ℕ)
      → key ≢ other
      → get (acquire l buckets key cost now).1 other ≡ get buckets other
  unfolding acquire
  acquire-get_ne buckets key other cost now ne = ground (
    arith,
    eq_iff key other,
    get-put buckets key other (take_tokens l (refill l (get buckets key) now) cost).0,
  )
