-- ===== src/Sweeper.antt =====
-- worker/expiry_sweeper.py: the sweep that expires tasks left in AWAITING_APPROVAL, and the append of
-- infra/persistence/audit_repo.py. Log lines are not modelled. `ids` is what the id factory returns,
-- `isoformat` the standard library's formatting of a time.
pub mod Sweeps
use meta_agent.Common.{
  ℕ, zero, suc, ◌+◌, ◌-◌, ◌*◌, String, Bool, true, false, ◌||◌, Option, none, some, [], List, ◌∷◌,
  ◌++◌, ◌==◌, if◌then◌else◌,
}
use meta_agent.Errors.{Result, ok, err, unique_violation}
use meta_agent.Exec.{Exec, lift, ◌>>=◌, ◌>>◌}
use meta_agent.Context.{RequestContext, check_tenant}
use meta_agent.Dict.{Dict}
use meta_agent.Value.{Value, str, int, ℤ}
use meta_agent.Task.{Task, expired}
use meta_agent.TaskRepo.Rows.{Tasks}
use meta_agent.TaskRepo.{transition_from_awaiting_approval, list_awaiting_approval_older_than}

-- core/domain/audit.py
pub record AuditEvent : Type 0 where
  pub event_id : String
  pub tenant_id : String
  pub principal_id : String
  pub session_id : Option String
  pub task_id : Option String
  pub trace_id : String
  pub action : String
  pub payload : Dict Value
  pub occurred_at : ℕ

unfoldable pub has_audit : String → List AuditEvent → Bool
has_audit event_id [] = false
has_audit event_id (a ∷ rest) = a.event_id == event_id || has_audit event_id rest

-- PgAuditRepository.append; `event_id` is the primary key
unfoldable pub append_audit : Option RequestContext → AuditEvent → Exec (List AuditEvent) (Unit {0})
append_audit bound a = do
  lift (check_tenant bound a.tenant_id)
  λ audits.
      if has_audit a.event_id audits
      then (err unique_violation, audits)
      else (ok tt, audits ++ a ∷ [])

-- the two tables that a sweep writes
pub record World : Type 0 where
  pub tasks : Tasks
  pub audits : List AuditEvent

-- microseconds of a day
abbrev pub day : ℕ
day = 86400000000

-- the context that the audit is written under
abbrev pub system_context : Task → String → RequestContext
system_context t request_id = record {
  tenant_id = t.tenant_id;
  principal_id = "system";
  trace_id = t.trace_id;
  request_id = request_id;
  session_id = none;
  task_id = none;
  span_id = none;
  parent_span_id = none;
  idempotency_key = none;
}

module _ (expiry_days batch_size : ℕ) (isoformat : ℕ → String) (ids : ℕ → String)
    (bound : Option RequestContext) (now : ℕ) where
  unfoldable pub expiry_event : Task → String → AuditEvent
  expiry_event t event_id = record {
    event_id = event_id;
    tenant_id = t.tenant_id;
    principal_id = "system";
    session_id = t.session_id;
    task_id = some t.task_id;
    trace_id = t.trace_id;
    action = "task.expired";
    payload =
        ("task_id", str t.task_id)
        ∷ ("expired_after_days", int (ℤ.pos expiry_days))
        ∷ ("paused_at", str (isoformat t.updated_at))
        ∷ [];
    occurred_at = now;
  }

  abbrev audited : Task → ℕ → Result (Unit {0}) → World → Result Bool × World
  audited t count (err e) w = (ok false, w)
  audited t count (ok u) w =
      let event = expiry_event t (ids (2 * count + 1)) in
      let context = system_context t (ids (2 * count)) in
      let (appended, audits) = append_audit (some context) event w.audits in
      (elim appended [ ok v ↦ ok true | err e ↦ err e ], record w { audits = audits })

  -- one task of the loop of `run_once`: whether it was expired. Every exception of the transition is
  -- caught; the audit is written under the context of the task.
  unfoldable pub expire : Task → ℕ → World → Result Bool × World
  expire t count w =
      let (answer, rows) =
        transition_from_awaiting_approval bound t.tenant_id t.task_id expired now w.tasks in
      audited t count answer (record w { tasks = rows })

  -- the loop; the second argument is the number expired so far
  unfoldable pub sweep : List Task → ℕ → World → Result ℕ × World
  sweep [] count w = (ok count, w)
  sweep (t ∷ ts) count w =
      let (answer, w') = expire t count w in
      let unchanged = sweep ts count w' in
      let counted = sweep ts (suc count) w' in
      elim answer [ err e ↦ (err e, w') | ok true ↦ counted | ok false ↦ unchanged ]

  unfoldable pub run_once : World → Result ℕ × World
  unfolding sweep
  run_once w =
      sweep (list_awaiting_approval_older_than (now - expiry_days * day) batch_size w.tasks) 0 w
