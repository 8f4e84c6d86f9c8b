-- ===== src/Webhook/GivesUp.antt =====
-- Retries of one delivery, round after round: infra/webhook/dispatcher.py gives up in the end.
use meta_agent.Common.{
  ℕ, zero, suc, ◌+◌, ◌≤◌, ◌<◌, String, ◌≡◌, true, false, Option, none, some, if◌then◌else◌,
}
use meta_agent.Webhook.{
  WebhookSubscription, WebhookDelivery, Deliveries, is_pending, WebhookDispatcherConfig, Response,
  dispatch,
}
use meta_agent.Webhook.Lifecycle.{find_delivery, is_sent}

module _ (c : WebhookDispatcherConfig) (few_attempts : c.max_attempts ≤ 1025)
    (post : ℕ → WebhookSubscription → WebhookDelivery → Response)
    (sent : (i : ℕ) (sub : WebhookSubscription) (d : WebhookDelivery)
      → is_sent (post i sub d) ≡ true)
    (subscription : ℕ → String → Option WebhookSubscription) (clock : ℕ → ℕ) where
  abbrev again : ℕ → Option WebhookDelivery → Deliveries → Deliveries
  again i none ds = ds
  again i (some d) ds =
      if is_pending d.status then (dispatch c (post i) (subscription i) (clock i) d ds).1 else ds

  -- rounds that each attempt the delivery if it is still pending; round `i` sees the answers, the
  -- subscriptions and the clock of its own time
  unfoldable pub rounds : ℕ → String → Deliveries → Deliveries
  rounds zero id ds = ds
  rounds (suc n) id ds = rounds n id (again n (find_delivery id ds) ds)

  abbrev pub GivenUp : ℕ → WebhookDelivery → Deliveries → Type 0
  GivenUp n d ds =
      (d' : WebhookDelivery) × (find_delivery d.delivery_id (rounds n d.delivery_id ds) ≡ some d')
      × (is_pending d'.status ≡ false)
      × (d.attempts < d'.attempts)
      × (d'.attempts ≤ d.attempts + n)
