-- ===== src/Llm.antt =====
-- infra/llm: the guards around the client of the model's provider, each a client that wraps another.
-- A client may read and change the world of the guards; `sent` are the requests that reached the
-- provider. Request fields that no guard reads are one dictionary. Log lines are not modelled.
pub mod Budget
pub mod Limits
pub mod Routes
pub mod Verdicts
pub mod Sends
use meta_agent.Common.{
  ℕ, suc, String, Bool, true, false, Option, none, some, List, [], ◌∷◌, ◌==◌, if◌then◌else◌,
}
use meta_agent.Errors.{Error, Result, ok, err}
use meta_agent.Exec.{Exec, pure, raise, catch, recover, continue, ◌>>=◌, ◌>>◌}
use meta_agent.Context.{RequestContext}
use meta_agent.Dict.{Dict}
use meta_agent.Value.{Value}
use meta_agent.Sweeper.{AuditEvent, append_audit}
use meta_agent.RateLimit.{Bucket}

-- core/ports/llm.py
pub record LlmRequest : Type 0 where
  pub model : Option String
  pub step_kind : Option String
  pub fields : Dict Value

-- core/ports/budget.py
pub record BudgetUsage : Type 0 where
  pub tokens_used : ℕ
  pub cost_usd_micros_used : ℕ

pub record BudgetDecision : Type 0 where
  pub allowed : Bool
  pub usage : BudgetUsage
  pub limit_tokens : Option ℕ

-- a cached decision and the time at which it expires
pub record Cached : Type 0 where
  pub expires_at : ℕ
  pub decision : BudgetDecision

pub record World : Type 0 where
  pub cache : Dict Cached
  pub buckets : Dict Bucket
  pub audits : List AuditEvent
  pub minted : ℕ
  pub ticks : ℕ
  pub sent : List LlmRequest

abbrev pub Client : Type 0 → Type 0
Client Response = LlmRequest → Exec World Response

-- `try: body except BaseException as exc: …`, as the answer that the code goes on with
abbrev pub attempt : {A : Type 0} → Exec World A → Exec World (Result A)
attempt body s = let (answer, after) = body s in (ok answer, after)

-- what every guard is given: the provider's name, whether a fault of its backend lets calls pass,
-- whether an audit sink is wired, and the sources of times and ids
pub record Guard : Type 0 where
  pub provider : String
  pub fail_open : Bool
  pub audit_sink : Bool
  pub clock : ℕ → ℕ
  pub id_factory : ℕ → String

abbrev pub or_default : Option String → String → String
or_default none default = default
or_default (some s) default = if s == "" then default else s

-- `ctx.tenant_id if ctx is not None else default`
abbrev pub tenant_or : Option RequestContext → String → String
tenant_or none default = default
tenant_or (some ctx) default = ctx.tenant_id

module _ (g : Guard) where
  abbrev denial_event : RequestContext → String → Dict Value → World → AuditEvent
  denial_event ctx action payload s = record {
    event_id = g.id_factory s.minted;
    tenant_id = ctx.tenant_id;
    principal_id = ctx.principal_id;
    session_id = ctx.session_id;
    task_id = ctx.task_id;
    trace_id = ctx.trace_id;
    action = action;
    payload = payload;
    occurred_at = g.clock s.ticks;
  }

  -- the row is appended, and any exception of the append is swallowed
  abbrev appended : RequestContext → AuditEvent → World → World
  appended ctx event s = record s {
    audits = (append_audit (some ctx) event s.audits).1;
    minted = suc s.minted;
    ticks = suc s.ticks;
  }

  -- `_audit_deny` and `_audit_open`, which differ in the action and the payload
  abbrev pub audit_denial : Option RequestContext → String → Dict Value → World → World
  audit_denial none action payload s = s
  audit_denial (some ctx) action payload s =
      if g.audit_sink then appended ctx (denial_event ctx action payload s) s else s
