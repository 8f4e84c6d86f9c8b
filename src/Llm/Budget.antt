-- ===== src/Llm/Budget.antt =====
-- infra/llm/budget_enforcing.py over infra/budget/llm_usage_aggregator.py: the monthly token budget
-- of a tenant, with decisions that are kept for a while.
use meta_agent.Common.{
  ℕ, suc, ◌+◌, String, Bool, true, Option, none, some, [], ◌∷◌, ◌==◌, eqb, ltb, if◌then◌else◌,
}
use meta_agent.Errors.{Error, Result, ok, err, value_error, budget_backend, budget_exceeded}
use meta_agent.Exec.{Exec, ◌>>=◌}
use meta_agent.Context.{RequestContext}
use meta_agent.Dict.{Dict, get, put}
use meta_agent.Value.{Value, null, str, int, ℤ}
use meta_agent.Llm.{
  LlmRequest, BudgetUsage, BudgetDecision, Cached, World, Client, Guard, audit_denial,
}

abbrev pub optional_text : Option String → Value
optional_text none = null
optional_text (some s) = str s

abbrev pub optional_number : Option ℕ → Value
optional_number none = null
optional_number (some n) = int (ℤ.pos n)

-- LLMUsageAggregatorBudgetEnforcer: its repository, its limit, and its clock with the standard
-- library's start of the month
pub record Enforcer : Type 0 where
  pub aggregate_since : String → ℕ → Result BudgetUsage
  pub limit_tokens : Option ℕ
  pub month_start : ℕ → ℕ
  pub now : ℕ → ℕ

-- `limit is None or used < limit`
abbrev pub is_within : Option ℕ → ℕ → Bool
is_within none used = true
is_within (some limit) used = ltb used limit

abbrev pub decision_for : Option ℕ → BudgetUsage → BudgetDecision
decision_for limit usage = record {
  allowed = is_within limit usage.tokens_used;
  usage = usage;
  limit_tokens = limit;
}

-- every exception of the aggregation is one of the backend
abbrev pub decided : Option ℕ → Result BudgetUsage → Result BudgetDecision
decided limit (err e) = err budget_backend
decided limit (ok usage) = ok (decision_for limit usage)

-- LLMUsageAggregatorBudgetEnforcer.check
unfoldable pub check_usage : Enforcer → String → Exec World BudgetDecision
check_usage e tenant_id s = if tenant_id == "" then (err value_error, s) else (
  decided e.limit_tokens (e.aggregate_since tenant_id (e.month_start (e.now s.ticks))),
  record s { ticks = suc s.ticks },
)

-- the part of the cache that may still answer
abbrev pub still_valid : Option Cached → ℕ → Option BudgetDecision
still_valid none now = none
still_valid (some c) now = if ltb now c.expires_at then some c.decision else none

module _ (g : Guard) (cache_ttl : ℕ) (monotonic : ℕ → ℕ)
    (enforcer : String → Exec World BudgetDecision) where
  -- what is made of the enforcer's answer
  abbrev pub remember : String → ℕ → Result BudgetDecision → Exec World (Option BudgetDecision)
  remember tenant_id now (err budget_backend) s =
      if g.fail_open then (ok none, s) else (err budget_backend, s)
  remember tenant_id now (err e) s = (err e, s)
  remember tenant_id now (ok decision) s = if eqb cache_ttl 0 then (ok (some decision), s) else (
    ok (some decision),
    record s {
      cache = put s.cache tenant_id (record { expires_at = now + cache_ttl; decision = decision });
    },
  )

  abbrev pub check_after : String → ℕ → Option BudgetDecision → Exec World (Option BudgetDecision)
  check_after tenant_id now (some decision) s = (ok (some decision), s)
  check_after tenant_id now none s =
      let (answer, after) = enforcer tenant_id s in remember tenant_id now answer after

  -- BudgetEnforcingLLMClient._check
  unfoldable pub check : String → Exec World (Option BudgetDecision)
  check tenant_id s =
      let now = monotonic s.ticks in
      check_after tenant_id now
        (if eqb cache_ttl 0 then none else still_valid (get s.cache tenant_id) now)
        (record s { ticks = suc s.ticks })

  module _ {Response : Type 0} (inner : Client Response) (bound : Option RequestContext) where
    abbrev pub exceeded : BudgetDecision → Error
    exceeded d = budget_exceeded d.usage.tokens_used d.limit_tokens

    abbrev denial_payload : LlmRequest → BudgetDecision → Dict Value
    denial_payload request d =
        ("provider", str g.provider)
        ∷ ("requested_model", optional_text request.model)
        ∷ ("tokens_used", int (ℤ.pos d.usage.tokens_used))
        ∷ ("cost_usd_micros_used", int (ℤ.pos d.usage.cost_usd_micros_used))
        ∷ ("limit_tokens", optional_number d.limit_tokens)
        ∷ []

    abbrev pub deny : LlmRequest → BudgetDecision → Exec World Response
    deny request d s =
        (err (exceeded d), audit_denial g bound "llm.budget.exceeded" (denial_payload request d) s)

    abbrev pub forward : LlmRequest → Option BudgetDecision → Exec World Response
    forward request none = inner request
    forward request (some d) = if d.allowed then inner request else deny request d

    abbrev pub complete_for : Option RequestContext → Client Response
    complete_for none request = inner request
    complete_for (some ctx) request =
        if ctx.tenant_id == "" then inner request else check ctx.tenant_id >>= forward request

    -- BudgetEnforcingLLMClient.complete
    unfoldable pub budgeted : Client Response
    budgeted = complete_for bound
