-- ===== src/Llm/Verdicts.antt =====
-- What the guards of infra/llm let through: budgets, cached decisions, denials and their order.
use meta_agent.Common.{
  ℕ, suc, ◌+◌, ◌≤◌, String, ◌≡◌, refl, ap, ◌∙◌, inl, inr, true, false, Option, none, some, arith,
  ◌==◌, eqb, ltb, if◌then◌else◌, Bool-cases,
}
use meta_agent.Errors.{ok, err, budget_exceeded}
use meta_agent.Exec.{Exec}
use meta_agent.Context.{RequestContext}
use meta_agent.Value.{Value}
use meta_agent.Dict.{Dict, get, get-put_self}
use meta_agent.Llm.{
  LlmRequest, BudgetUsage, BudgetDecision, Cached, World, Client, Guard, audit_denial,
}
use meta_agent.Llm.Budget.{
  Enforcer, check_usage, still_valid, check, check_after, budgeted, is_within, decision_for,
}

-- what a denial leaves alone: the provider's requests, the limiter's buckets and the cache
abbrev pub Spared : World → World → Type 0
Spared s s' = (s'.sent ≡ s.sent) × (s'.buckets ≡ s.buckets)

audit-Spared :
    (g : Guard) (bound : Option RequestContext) (action : String) (payload : Dict Value) (s : World)
    → Spared s (audit_denial g bound action payload s)
audit-Spared g none action payload s = (refl, refl)
audit-Spared g (some ctx) action payload s = elim (Bool-cases g.audit_sink) [
  | inl on ↦ rw on (refl, refl)
  | inr off ↦ rw off (refl, refl)
]

reached-over : (limit used : ℕ) → limit ≤ used → is_within (some limit) used ≡ false
reached-over limit used h = ground arith

module _ (g : Guard) (cache_ttl : ℕ) (monotonic : ℕ → ℕ) (e : Enforcer) where
  -- the decision of a check that asks the repository
  fresh-check :
      (tenant_id : String) (s : World) (u : BudgetUsage)
      → (tenant_id == "") ≡ false
      → get s.cache tenant_id ≡ none
      → e.aggregate_since tenant_id (e.month_start (e.now (suc s.ticks))) ≡ ok u
      → ((check g cache_ttl monotonic (check_usage e) tenant_id s).0
          ≡ ok (some (decision_for e.limit_tokens u)))
        × Spared s (check g cache_ttl monotonic (check_usage e) tenant_id s).1
  unfolding check check_usage
  fresh-check tenant_id s u named missing used = elim (Bool-cases (eqb cache_ttl 0)) [
    | inl off ↦ rw off (rw (named, used) (rw off (refl, (refl, refl))))
    | inr on ↦ rw (on, missing) (rw (named, used) (rw on (refl, (refl, refl))))
  ]

  module _ {Response : Type 0} (inner : Client Response) (ctx : RequestContext) where
    -- A tenant without a cached decision whose usage of the month has reached the limit is refused,
    -- whatever the guarded client would do: the answer carries the usage and the limit, no request
    -- reaches the provider and no token of the rate limiter is taken.
    pub over_budget :
        (request : LlmRequest) (s : World) (u : BudgetUsage) (limit : ℕ)
        → (ctx.tenant_id == "") ≡ false
        → get s.cache ctx.tenant_id ≡ none
        → e.aggregate_since ctx.tenant_id (e.month_start (e.now (suc s.ticks))) ≡ ok u
        → e.limit_tokens ≡ some limit
        → limit ≤ u.tokens_used
        → let answer = budgeted g cache_ttl monotonic (check_usage e) inner (some ctx) request s in
          (answer.0 ≡ err (budget_exceeded u.tokens_used (some limit))) × Spared s answer.1
    unfolding budgeted
    over_budget request s u limit named missing used limited reached =
        let (decided_, spared) = fresh-check ctx.tenant_id s u named missing used in
        let over =
          ap (λ l. is_within l u.tokens_used) limited ∙ reached-over limit u.tokens_used reached in
        let after = (check g cache_ttl monotonic (check_usage e) ctx.tenant_id s).1 in
        let (sent, buckets) = audit-Spared g (some ctx) "llm.budget.exceeded" _ after in
        rw (named, decided_, over)
          (
            ap (λ l. err (budget_exceeded u.tokens_used l)) limited,
            (sent ∙ spared.0, buckets ∙ spared.1),
          )

    -- A tenant without a cached decision whose usage is below the limit, or that has no limit, is
    -- answered by the guarded client.
    pub under_budget :
        (request : LlmRequest) (s : World) (u : BudgetUsage)
        → (ctx.tenant_id == "") ≡ false
        → get s.cache ctx.tenant_id ≡ none
        → e.aggregate_since ctx.tenant_id (e.month_start (e.now (suc s.ticks))) ≡ ok u
        → is_within e.limit_tokens u.tokens_used ≡ true
        → budgeted g cache_ttl monotonic (check_usage e) inner (some ctx) request s
          ≡ inner request (check g cache_ttl monotonic (check_usage e) ctx.tenant_id s).1
    unfolding budgeted
    under_budget request s u named missing used within =
        let (answer, spared) = fresh-check ctx.tenant_id s u named missing used in
        rw (named, answer, within) refl

-- With a lifetime above 0: where a check of a tenant finds no entry of it that is still valid, be it
-- that there is none or that it has expired, and the enforcer answers, then its decision answers the
-- next check of that tenant before it expires, without a question to any enforcer and without a
-- change of the cache; from the moment it expires on, the enforcer is asked. Between the two checks
-- anything may happen, checks of other tenants included, that leaves this tenant's entry as it is.
pub cached_law :
    (g : Guard) (cache_ttl : ℕ) (monotonic : ℕ → ℕ)
    (enforcer other : String → Exec World BudgetDecision) (tenant_id : String) (s later : World)
    (d : BudgetDecision) (after : World)
    → eqb cache_ttl 0 ≡ false
    → still_valid (get s.cache tenant_id) (monotonic s.ticks) ≡ none
    → enforcer tenant_id (record s { ticks = suc s.ticks }) ≡ (ok d, after)
    → get later.cache tenant_id
      ≡ get (check g cache_ttl monotonic enforcer tenant_id s).1.cache tenant_id
    → check g cache_ttl monotonic other tenant_id later ≡ (
        if ltb (monotonic later.ticks) (monotonic s.ticks + cache_ttl)
        then (ok (some d), record later { ticks = suc later.ticks })
        else check_after g cache_ttl monotonic other tenant_id
            (monotonic later.ticks)
            none
            (record later { ticks = suc later.ticks }))
unfolding check
cached_law g ttl monotonic enforcer other tenant_id s later d after on missing asked kept =
    let c : Cached = record { expires_at = monotonic s.ticks + ttl; decision = d } in
    let hit : get later.cache tenant_id ≡ some c =
      kept ∙ (rw (on, missing) (rw asked (rw on (get-put_self after.cache tenant_id c)))) in
    elim (Bool-cases (ltb (monotonic later.ticks) (monotonic s.ticks + ttl))) [
      | inl valid ↦ rw (on, hit, valid) refl
      | inr expired ↦ rw (on, hit, expired) refl
    ]
