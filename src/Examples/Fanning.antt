-- ===== src/Examples/Fanning.antt =====
-- Examples for Fanout.
use meta_agent.Common.{
  ℕ, zero, suc, String, ◌≡◌, refl, Bool, true, false, none, some, List, [], ◌∷◌, length, select,
}
use meta_agent.Errors.{ok}
use meta_agent.Context.{check_tenant}
use meta_agent.Format.{decimal}
use meta_agent.Sweeper.{AuditEvent}
use meta_agent.Webhook.{WebhookSubscription, enqueue, has_delivery, has_delivery_id}
use meta_agent.Fanout.{listens, list_active_for_event, delivery_for, fanout, is_among}
use meta_agent.Fanout.Repeats.{fanout_again}
use meta_agent.Examples.Data.{tenant}

abbrev subscription : String → Bool → WebhookSubscription
subscription id active = record {
  subscription_id = id;
  tenant_id = "acme";
  url = "https://example.com/hook";
  secret = "secret";
  events = "task.expired" ∷ [];
  active = active;
  created_at = 0;
}

abbrev subscriptions : List WebhookSubscription
subscriptions = subscription "s1" true ∷ subscription "s2" false ∷ subscription "s3" true ∷ []

abbrev expiry : AuditEvent
expiry = record {
  event_id = "a1";
  tenant_id = "acme";
  principal_id = "system";
  session_id = none;
  task_id = some "t1";
  trace_id = "trace";
  action = "task.expired";
  payload = [];
  occurred_at = 5;
}

abbrev new_id : ℕ → String
new_id zero = "d0"
new_id (suc n) = "d1"

watched : is_among expiry.action ("task.expired" ∷ []) ≡ true
unfolding is_among
watched = refl

allowed : check_tenant (some (tenant "acme")) expiry.tenant_id ≡ ok tt
unfolding check_tenant
allowed = refl

written :
    (fanout (some (tenant "acme")) decimal new_id 6 expiry ("task.expired" ∷ []) subscriptions []).0
    ≡ length (select (listens expiry.tenant_id expiry.action) subscriptions)
unfolding fanout list_active_for_event is_among check_tenant enqueue has_delivery has_delivery_id
    delivery_for
written = refl

fanout_again_example :
    fanout
      (some (tenant "acme"))
      decimal
      (λ i. "other")
      9
      expiry
      ("task.expired" ∷ [])
      subscriptions
      (fanout
        (some (tenant "acme"))
        decimal
        new_id
        6
        expiry
        ("task.expired" ∷ [])
        subscriptions
        []).1
    ≡ (
      length (select (listens expiry.tenant_id expiry.action) subscriptions),
      (fanout
          (some (tenant "acme"))
          decimal
          new_id
          6
          expiry
          ("task.expired" ∷ [])
          subscriptions
          []).1,
    )
fanout_again_example =
    fanout_again (some (tenant "acme")) decimal expiry new_id (λ i. "other") 6 9
      ("task.expired" ∷ []) subscriptions [] watched allowed written
