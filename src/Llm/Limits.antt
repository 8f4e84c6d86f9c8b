-- ===== src/Llm/Limits.antt =====
-- infra/llm/rate_limited.py and infra/llm/circuit_breaking.py: the guards over a rate limiter and a
-- circuit breaker. Both backends are ports; the in-memory limiter is the one of RateLimit.
use meta_agent.Common.{ℕ, suc, String, Bool, true, false, Option, [], ◌∷◌, if◌then◌else◌}
use meta_agent.Errors.{
  Error, Result, ok, err, limiter_backend, rate_limited, breaker_backend, breaker_open,
  llm_transient, llm_invalid_request, llm_auth,
}
use meta_agent.Exec.{Exec, pure, raise, ◌>>=◌, ◌>>◌}
use meta_agent.Context.{RequestContext}
use meta_agent.Dict.{Dict}
use meta_agent.Value.{Value, str, int, ℤ}
use meta_agent.Format.{◌+++◌}
use meta_agent.RateLimit.{Limiter, Decision, acquire}
use meta_agent.Llm.{attempt, LlmRequest, World, Client, Guard, or_default, tenant_or, audit_denial}
use meta_agent.Llm.Budget.{optional_text, optional_number}

-- InMemoryTokenBucketRateLimiter behind the port, with the default cost of 1
unfoldable pub in_memory : Limiter → (ℕ → ℕ) → String → Exec World Decision
in_memory l monotonic key s =
    let (answer, buckets) = acquire l s.buckets key 1 (monotonic s.ticks) in
    (answer, record s { buckets = buckets; ticks = suc s.ticks })

-- _default_should_count
abbrev pub default_should_count : Error → Bool
default_should_count llm_invalid_request = false
default_should_count llm_auth = false
default_should_count e = true

-- RedisCircuitBreaker.call of infra/circuitbreaker/redis_breaker.py, over its two scripts: `gate`
-- answers whether the call is a probe, `record` is given success, counted and probe
module _ {Response : Type 0} (gate : String → Exec World Bool)
    (record_outcome : String → Bool → Bool → Bool → Exec World (Unit {0})) where
  abbrev pub recorded : String → (Error → Bool) → Bool → Result Response → Exec World Response
  recorded key should_count is_probe (ok response) =
      record_outcome key true false is_probe >> pure response
  recorded key should_count is_probe (err e) =
      record_outcome key false (should_count e) is_probe >> raise e

  unfoldable pub redis_call : String → Exec World Response → (Error → Bool) → Exec World Response
  redis_call key fn should_count = do
    is_probe ← gate key
    answer ← attempt fn
    recorded key should_count is_probe answer

module _ (g : Guard) {Response : Type 0} (inner : Client Response)
    (bound : Option RequestContext) where
  -- _default_key, the same of both guards
  unfoldable pub default_key : LlmRequest → String
  default_key request =
      "llm:"
      +++ g.provider
      +++ ":tenant="
      +++ tenant_or bound "anonymous"
      +++ ":model="
      +++ or_default request.model "default"

  module _ (limiter : String → Exec World Decision) where
    abbrev limit_payload : LlmRequest → Decision → Dict Value
    limit_payload request d =
        ("provider", str g.provider)
        ∷ ("requested_model", optional_text request.model)
        ∷ ("key", str (default_key request))
        ∷ ("retry_after_ms", optional_number d.retry_after_ms)
        ∷ ("remaining", int (ℤ.pos d.remaining))
        ∷ []

    abbrev pub limited : LlmRequest → Result Decision → Exec World Response
    limited request (err limiter_backend) s =
        if g.fail_open then inner request s else (err limiter_backend, s)
    limited request (err e) s = (err e, s)
    limited request (ok d) s = if d.allowed then inner request s else (
      err (rate_limited d.retry_after_ms),
      audit_denial g bound "llm.rate_limited.denied" (limit_payload request d) s,
    )

    -- RateLimitedLLMClient.complete
    unfoldable pub rate_limited_client : Client Response
    rate_limited_client request s =
        let (answer, after) = limiter (default_key request) s in limited request answer after

  -- the port of core/ports/circuit_breaker.py: a call under a key, with the test of what counts
  module _ (breaker : String → Exec World Response → (Error → Bool) → Exec World Response) where
    abbrev open_payload : LlmRequest → String → Option ℕ → Dict Value
    open_payload request key retry_after_ms =
        ("provider", str g.provider)
        ∷ ("requested_model", optional_text request.model)
        ∷ ("key", str key)
        ∷ ("retry_after_ms", optional_number retry_after_ms)
        ∷ []

    abbrev pub broken : LlmRequest → Result Response → Exec World Response
    broken request (ok response) s = (ok response, s)
    broken request (err (breaker_open key retry_after_ms)) s = (
      err llm_transient,
      audit_denial g bound "llm.circuit_breaker.open" (open_payload request key retry_after_ms) s,
    )
    broken request (err breaker_backend) s =
        if g.fail_open then inner request s else (err breaker_backend, s)
    broken request (err e) s = (err e, s)

    -- CircuitBreakingLLMClient.complete
    unfoldable pub breaking_client : Client Response
    breaking_client request s =
        let (answer, after) =
          breaker (default_key request) (inner request) default_should_count s in
        broken request answer after
