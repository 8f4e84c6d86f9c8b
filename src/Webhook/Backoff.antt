-- ===== src/Webhook/Backoff.antt =====
-- The retry schedule of infra/webhook/dispatcher.py.
use native.Mathlib.Nat.{pow-suc}
use meta_agent.Common.{ℕ, zero, suc, ◌+◌, ◌-◌, ◌*◌, ◌^◌, ◌≤◌, ◌<◌, min, ◌≡◌, arith, mul_mono}
use meta_agent.Errors.{ok}
use meta_agent.Webhook.{WebhookDispatcherConfig, backoff, compute_next_attempt_at}

pow_pos : (n : ℕ) → 1 ≤ 2 ^ n
pow_pos zero = omega arith
pow_pos (suc n) = rw pow-suc (omega (arith, pow_pos n))

-- the schedule, by the number of failures before this one
backoff-suc :
    (c : WebhookDispatcherConfig) (n : ℕ)
    → backoff c (suc n) ≡ min (c.base_delay * 2 ^ n) c.max_delay
unfolding backoff
backoff-suc c n = let e : suc n - 1 ≡ n = omega arith in rw e

double : (base n : ℕ) → base * 2 ^ suc n ≡ 2 * (base * 2 ^ n)
double base n = rw pow-suc (omega arith)

at_least : (base n : ℕ) → base ≤ base * 2 ^ n
at_least base n = omega (arith, mul_mono 1 (2 ^ n) base (pow_pos n))

-- After the first failed attempt the delay is the base delay, under the cap; each further failure
-- doubles it, under the cap; so it is never above the cap and never below the first delay. The time
-- that is computed for an attempt number from 1 to 1024 is now plus that delay.
pub backoff_law :
    (c : WebhookDispatcherConfig) (now n : ℕ)
    → n < 1024
    → (compute_next_attempt_at c now (suc n) ≡ ok (now + backoff c (suc n)))
      × (backoff c 1 ≡ min c.base_delay c.max_delay)
      × (backoff c (suc (suc n)) ≡ min (2 * backoff c (suc n)) c.max_delay)
      × (min c.base_delay c.max_delay ≤ backoff c (suc n))
      × (backoff c (suc n) ≤ c.max_delay)
unfolding compute_next_attempt_at
backoff_law c now n few = (
  ground (arith, few),
  rw backoff-suc (omega arith),
  rw (backoff-suc c (suc n), backoff-suc c n) (omega (arith, double c.base_delay n)),
  rw (backoff-suc c n) (omega (arith, at_least c.base_delay n)),
  rw (backoff-suc c n) (omega arith),
)
