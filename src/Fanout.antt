-- ===== src/Fanout.antt =====
-- infra/webhook/fanout.py: from an audit event to the deliveries of the subscriptions that listen to
-- it, and the lookup of infra/persistence/webhook_repo.py. Log lines are not modelled. `ids` is what
-- the id factory returns, `isoformat` the standard library's formatting of a time.
pub mod Repeats
use meta_agent.Common.{
  ℕ, zero, suc, String, Bool, true, false, not, ◌&&◌, ◌||◌, Option, none, some, List, [], ◌∷◌, ◌==◌,
  if◌then◌else◌, select,
}
use meta_agent.Errors.{Result, ok, err, ◌>>=◌, ◌>>◌}
use meta_agent.Context.{RequestContext, check_tenant}
use meta_agent.Dict.{Dict}
use meta_agent.Value.{Value, null, str, dict, to_fields}
use meta_agent.Format.{◌+++◌}
use meta_agent.Sweeper.{AuditEvent}
use meta_agent.Webhook.{WebhookSubscription, WebhookDelivery, Deliveries, pending, enqueue}

-- text = ANY(texts), text in texts
unfoldable pub is_among : String → List String → Bool
is_among text [] = false
is_among text (t ∷ ts) = t == text || is_among text ts

abbrev pub listens : String → String → WebhookSubscription → Bool
listens tenant_id action s = s.tenant_id == tenant_id && s.active && is_among action s.events

-- PgWebhookSubscriptionRepository.list_active_for_event
unfoldable pub list_active_for_event :
    Option RequestContext
    → String
    → String
    → List WebhookSubscription
    → Result (List WebhookSubscription)
list_active_for_event bound tenant_id action subs = do
  check_tenant bound tenant_id
  ok (select (listens tenant_id action) subs)

abbrev optional : Option String → Value
optional none = null
optional (some s) = str s

-- _payload_from
abbrev pub payload_from : (ℕ → String) → AuditEvent → Dict Value
payload_from isoformat e =
    ("event_id", str e.event_id)
    ∷ ("tenant_id", str e.tenant_id)
    ∷ ("trace_id", str e.trace_id)
    ∷ ("task_id", optional e.task_id)
    ∷ ("session_id", optional e.session_id)
    ∷ ("action", str e.action)
    ∷ ("payload", dict (to_fields e.payload))
    ∷ ("occurred_at", str (isoformat e.occurred_at))
    ∷ []

unfoldable pub delivery_for :
    (ℕ → String) → AuditEvent → ℕ → String → WebhookSubscription → WebhookDelivery
delivery_for isoformat e now id s = record {
  delivery_id = id;
  subscription_id = s.subscription_id;
  tenant_id = e.tenant_id;
  trace_id = e.trace_id;
  event_action = e.action;
  payload = payload_from isoformat e;
  idempotency_key = "audit:" +++ e.event_id +++ ":" +++ s.subscription_id;
  status = pending;
  attempts = 0;
  next_attempt_at = now;
  last_error = none;
  created_at = now;
  dispatched_at = none;
}

-- every exception of an enqueue is caught
abbrev pub counted : Result (Unit {0}) → ℕ → ℕ
counted (ok u) wrote = suc wrote
counted (err e) wrote = wrote

module _ (bound : Option RequestContext) (isoformat : ℕ → String) (ids : ℕ → String) (now : ℕ)
    (e : AuditEvent) where
  -- the loop of `fanout`; `i` counts the ids taken, `wrote` the enqueues that returned
  unfoldable pub fan : List WebhookSubscription → ℕ → ℕ → Deliveries → ℕ × Deliveries
  fan [] i wrote ds = (wrote, ds)
  fan (s ∷ subs) i wrote ds =
      let (answer, ds') = enqueue bound (delivery_for isoformat e now (ids i) s) ds in
      fan subs (suc i) (counted answer wrote) ds'

  abbrev pub fan_over : Result (List WebhookSubscription) → Deliveries → ℕ × Deliveries
  fan_over (err x) ds = (0, ds)
  fan_over (ok subs) ds = fan subs 0 0 ds

  -- WebhookFanout.fanout
  unfoldable pub fanout : List String → List WebhookSubscription → Deliveries → ℕ × Deliveries
  unfolding fan
  fanout watched subs ds =
      if is_among e.action watched
      then fan_over (list_active_for_event bound e.tenant_id e.action subs) ds
      else (0, ds)
