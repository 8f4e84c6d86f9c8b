-- ===== src/Context.antt =====
-- infra/security/context.py (the bound request context) and infra/persistence/_guard.py.
-- The context variable is an argument: `none` where no context is bound.
use meta_agent.Common.{String, ◌≡◌, refl, Option, none, some, arith, ◌==◌, eq_iff, if◌then◌else◌}
use meta_agent.Errors.{Result, ok, err, missing_context, tenant_isolation}

pub record RequestContext : Type 0 where
  pub tenant_id : String
  pub principal_id : String
  pub trace_id : String
  pub request_id : String
  pub session_id : Option String
  pub task_id : Option String
  pub span_id : Option String
  pub parent_span_id : Option String
  pub idempotency_key : Option String

-- require_current().tenant_id
abbrev pub require_tenant_id : Option RequestContext → Result String
require_tenant_id none = err missing_context
require_tenant_id (some ctx) = ok ctx.tenant_id

unfoldable pub check_tenant : Option RequestContext → String → Result (Unit {0})
check_tenant none tenant_id = err missing_context
check_tenant (some ctx) tenant_id =
    if ctx.tenant_id == tenant_id then ok tt else err tenant_isolation

-- A passed check says that the bound tenant is the tenant asked for.
pub check_tenant-ok :
    (bound : Option RequestContext) (tenant_id : String)
    → check_tenant bound tenant_id ≡ ok tt
    → (ctx : RequestContext) × (bound ≡ some ctx) × (ctx.tenant_id ≡ tenant_id)
unfolding check_tenant
check_tenant-ok none t h = ground arith
check_tenant-ok (some ctx) t h = (ctx, refl, ground (arith, eq_iff ctx.tenant_id t))
