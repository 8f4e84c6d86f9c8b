-- ===== src/Examples/Deliveries.antt =====
-- Examples for Webhook.
use meta_agent.Common.{ℕ, String, ◌≡◌, refl, true, Option, none, some, [], ◌∷◌, arith}
use meta_agent.Errors.{err, overflow_error}
use meta_agent.Webhook.{
  WebhookSubscription, WebhookDelivery, pending, Deliveries, WebhookDispatcherConfig, Response,
  dispatch,
}
use meta_agent.Webhook.Lifecycle.{dispatch-overflow}

abbrev config : WebhookDispatcherConfig
config = record { batch_size = 2; max_attempts = 3; base_delay = 10; max_delay = 25 }

abbrev endpoint : WebhookSubscription
endpoint = record {
  subscription_id = "s1";
  tenant_id = "acme";
  url = "https://example.com/hook";
  secret = "secret";
  events = [];
  active = true;
  created_at = 0;
}

abbrev delivery : String → ℕ → WebhookDelivery
delivery id due = record {
  delivery_id = id;
  subscription_id = "s1";
  tenant_id = "acme";
  trace_id = "trace";
  event_action = "task.expired";
  payload = [];
  idempotency_key = id;
  status = pending;
  attempts = 0;
  next_attempt_at = due;
  last_error = none;
  created_at = 0;
  dispatched_at = none;
}

abbrev queue : Deliveries
queue = delivery "d1" 5 ∷ delivery "d2" 3 ∷ delivery "d3" 9 ∷ delivery "d4" 4 ∷ []

abbrev failing : WebhookSubscription → WebhookDelivery → Response
failing sub d = Response.status_code 503

abbrev known : String → Option WebhookSubscription
known id = some endpoint

-- a configuration that allows more attempts than a float can space
abbrev patient : WebhookDispatcherConfig
patient = record config { max_attempts = 2000 }

abbrev tired : WebhookDelivery
tired = record (delivery "d2" 3) { attempts = 1024 }

dispatch-overflow_example :
    dispatch patient failing known 7 tired (tired ∷ []) ≡ (err overflow_error, tired ∷ [])
dispatch-overflow_example =
    dispatch-overflow patient failing known 7 tired (tired ∷ []) endpoint refl refl refl refl
      (omega arith) (omega arith)
