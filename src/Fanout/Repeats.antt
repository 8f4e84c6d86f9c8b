-- ===== src/Fanout/Repeats.antt =====
-- An audit event that infra/webhook/fanout.py sees twice.
use meta_agent.Common.{
  ℕ, suc, ◌+◌, ◌≤◌, String, ◌≡◌, refl, ◌∙◌, ap, true, Option, List, [], ◌∷◌, ◌++◌, arith, length,
  select, All, inl, inr,
}
use meta_agent.Errors.{Result, ok, err, Result-cases}
use meta_agent.Context.{RequestContext, check_tenant}
use meta_agent.Sweeper.{AuditEvent}
use meta_agent.Webhook.{WebhookSubscription, WebhookDelivery, Deliveries, has_delivery, enqueue}
use meta_agent.Webhook.Claims.{enqueue_once}
use meta_agent.Fanout.{listens, list_active_for_event, delivery_for, counted, fan, fanout, is_among}

has_delivery-more :
    (t k : String) (ds : Deliveries) (d : WebhookDelivery)
    → has_delivery t k ds ≡ true
    → has_delivery t k (ds ++ d ∷ []) ≡ true
unfolding has_delivery
has_delivery-more t k [] d h = cc
has_delivery-more t k (x ∷ ds) d h = ground (arith, has_delivery-more t k ds d)

enqueue-keeps :
    (bound : Option RequestContext) (d : WebhookDelivery) (ds : Deliveries) (t k : String)
    → has_delivery t k ds ≡ true
    → has_delivery t k (enqueue bound d ds).1 ≡ true
unfolding enqueue
enqueue-keeps bound d ds t k h = ground (arith, has_delivery-more t k ds d h)

enqueue-known :
    (bound : Option RequestContext) (d : WebhookDelivery) (ds : Deliveries)
    → check_tenant bound d.tenant_id ≡ ok tt
    → has_delivery d.tenant_id d.idempotency_key ds ≡ true
    → enqueue bound d ds ≡ (ok tt, ds)
unfolding enqueue
enqueue-known bound d ds chk known = rw (chk, known) refl

counted-le : (r : Result (Unit {0})) (wrote : ℕ) → counted r wrote ≤ suc wrote
counted-le (ok u) wrote = omega arith
counted-le (err x) wrote = omega arith

-- the key of a delivery does not depend on its id or time
abbrev Known : (ℕ → String) → AuditEvent → Deliveries → WebhookSubscription → Type 0
Known isoformat e ds s =
    has_delivery e.tenant_id (delivery_for isoformat e 0 "" s).idempotency_key ds ≡ true

module _ (bound : Option RequestContext) (isoformat : ℕ → String) (e : AuditEvent)
    (ids : ℕ → String) (now : ℕ) where
  fan-le :
      (subs : List WebhookSubscription) (i wrote : ℕ) (ds : Deliveries)
      → (fan bound isoformat ids now e subs i wrote ds).0 ≤ wrote + length subs
  unfolding fan
  fan-le [] i wrote ds = omega arith
  fan-le (s ∷ subs) i wrote ds =
      let (answer, after) = enqueue bound (delivery_for isoformat e now (ids i) s) ds in
      omega (arith, fan-le subs (suc i) (counted answer wrote) after, counted-le answer wrote)

  fan-keeps :
      (subs : List WebhookSubscription) (i wrote : ℕ) (ds : Deliveries) (t k : String)
      → has_delivery t k ds ≡ true
      → has_delivery t k (fan bound isoformat ids now e subs i wrote ds).1 ≡ true
  unfolding fan
  fan-keeps [] i wrote ds t k h = h
  fan-keeps (s ∷ subs) i wrote ds t k h = fan-keeps subs _ _ _ t k (enqueue-keeps bound _ ds t k h)

  fan-Known :
      (subs : List WebhookSubscription) (i wrote : ℕ) (ds : Deliveries)
      → (fan bound isoformat ids now e subs i wrote ds).0 ≡ wrote + length subs
      → All (Known isoformat e (fan bound isoformat ids now e subs i wrote ds).1) subs
  unfolding fan delivery_for
  fan-Known [] i wrote ds h = tt
  fan-Known (s ∷ subs) i wrote ds h =
      let d = delivery_for isoformat e now (ids i) s in
      let (answer, after) = enqueue bound d ds in
      let total : (fan bound isoformat ids now e subs (suc i) (counted answer wrote) after).0
          ≡ wrote + suc (length subs) =
        h in
      elim (Result-cases answer) [
        | inl (x, failed) ↦
            let same : counted answer wrote ≡ wrote = ap (λ r. counted r wrote) failed in
            absurd (omega (arith, total, fan-le subs (suc i) (counted answer wrote) after, same))
        | inr (u, written) ↦
            let same : counted answer wrote ≡ suc wrote = ap (λ r. counted r wrote) written in
            (
              fan-keeps subs (suc i) (counted answer wrote) after e.tenant_id d.idempotency_key
                  (enqueue_once bound d d ds written refl refl).0,
              fan-Known subs (suc i) (counted answer wrote) after (omega (arith, total, same)),
            )
      ]

  -- a second round over subscriptions whose deliveries are there
  fan-again :
      (subs : List WebhookSubscription) (i wrote : ℕ) (ds : Deliveries)
      → check_tenant bound e.tenant_id ≡ ok tt
      → All (Known isoformat e ds) subs
      → fan bound isoformat ids now e subs i wrote ds ≡ (wrote + length subs, ds)
  unfolding fan delivery_for
  fan-again [] i wrote ds chk known = ap (λ n. (n, ds)) (omega arith)
  fan-again (s ∷ subs) i wrote ds chk (known, others) =
      rw (enqueue-known bound (delivery_for isoformat e now (ids i) s) ds chk known)
        (fan-again subs (suc i) (suc wrote) ds chk others ∙ ap (λ n. (n, ds)) (omega arith))

  fanout-eq :
      (watched : List String) (subs : List WebhookSubscription) (ds : Deliveries)
      → is_among e.action watched ≡ true
      → check_tenant bound e.tenant_id ≡ ok tt
      → fanout bound isoformat ids now e watched subs ds
        ≡ fan bound isoformat ids now e (select (listens e.tenant_id e.action) subs) 0 0 ds
  unfolding fanout list_active_for_event
  fanout-eq watched subs ds watches chk = rw (watches, chk) refl

-- For a watched action, under the context of the tenant of the event: after a fanout that returns
-- the number of the subscriptions that listen, which says that every enqueue returned, a second
-- fanout of the same event, with other ids and at another time, returns the same number and adds no
-- delivery.
pub fanout_again :
    (bound : Option RequestContext) (isoformat : ℕ → String) (e : AuditEvent)
    (ids ids' : ℕ → String) (now now' : ℕ) (watched : List String) (subs : List WebhookSubscription)
    (ds : Deliveries)
    → is_among e.action watched ≡ true
    → check_tenant bound e.tenant_id ≡ ok tt
    → (fanout bound isoformat ids now e watched subs ds).0
      ≡ length (select (listens e.tenant_id e.action) subs)
    → fanout bound isoformat ids' now' e watched subs
        (fanout bound isoformat ids now e watched subs ds).1
      ≡ (
        length (select (listens e.tenant_id e.action) subs),
        (fanout bound isoformat ids now e watched subs ds).1,
      )
fanout_again bound isoformat e ids ids' now now' watched subs ds watches chk whole =
    let listeners = select (listens e.tenant_id e.action) subs in
    let once = fanout-eq bound isoformat e ids now watched subs ds watches chk in
    rw once (
      fanout-eq bound isoformat e ids' now' watched subs _ watches chk
      ∙ fan-again bound isoformat e ids' now' listeners 0 0 _ chk
          (fan-Known bound isoformat e ids now listeners 0 0 ds (rw once at whole ∙ omega arith))
      ∙ ap (λ n. (n, (fan bound isoformat ids now e listeners 0 0 ds).1)) (omega arith))
