-- ===== src/Webhook/Lifecycle.antt =====
-- One delivery through infra/webhook/dispatcher.py, attempt by attempt.
use meta_agent.Common.{
  ℕ, ◌+◌, ◌≤◌, ◌<◌, String, ◌≡◌, refl, ◌∙◌, Bool, true, false, not, ◌&&◌, Option, none, some, [],
  ◌∷◌, ◌==◌, arith, ltb, leb, if◌then◌else◌,
}
use meta_agent.Errors.{Result, ok, err, overflow_error}
use meta_agent.Webhook.{
  WebhookSubscription, WebhookDelivery, WebhookDeliveryStatus, pending, dispatched, dead_letter,
  Deliveries, is_pending, WebhookDispatcherConfig, compute_next_attempt_at, Response, failure_of,
  handle_failure, settle, dispatch,
}

-- SELECT * FROM webhook_deliveries WHERE delivery_id = $1
unfoldable pub find_delivery : String → Deliveries → Option WebhookDelivery
find_delivery id [] = none
find_delivery id (d ∷ ds) = if d.delivery_id == id then some d else find_delivery id ds

-- a 2xx answer
abbrev pub is_accepted : Response → Bool
is_accepted (Response.status_code n) = leb 200 n && ltb n 300
is_accepted _ = false

-- the URL of the subscription is one
abbrev pub is_sent : Response → Bool
is_sent (Response.invalid_url text) = false
is_sent _ = true

-- where an attempt leaves a delivery: its new status, by the subscription, the response and the
-- number of attempts made so far
unfoldable pub verdict :
    ℕ → Option WebhookSubscription → (WebhookSubscription → Response) → ℕ → WebhookDeliveryStatus
verdict max_attempts none answer attempts = dead_letter
verdict max_attempts (some sub) answer attempts =
    if not sub.active
    then dead_letter
    else if is_accepted (answer sub)
    then dispatched
    else if leb max_attempts (attempts + 1)
    then dead_letter
    else pending

-- how an attempt may leave a delivery
abbrev pub After :
    WebhookDelivery → Result (Unit {0}) × Deliveries → WebhookDeliveryStatus → ℕ → Type 0
After d answer status due =
    (answer.0 ≡ ok tt)
    × ((d' : WebhookDelivery) × (find_delivery d.delivery_id answer.1 ≡ some d')
        × (d'.delivery_id ≡ d.delivery_id)
        × (d'.subscription_id ≡ d.subscription_id)
        × (d'.attempts ≡ d.attempts + 1)
        × (d'.status ≡ status)
        × (d'.next_attempt_at ≡ (if is_pending status then due else d.next_attempt_at)))

if-true : {A : Type 0} (b : Bool) (x y : A) → b ≡ true → (if b then x else y) ≡ x
if-true b x y h = rw h refl

-- the last attempt whose backoff is a float
abbrev pub last_float : ℕ
last_float = 1024

module _ (c : WebhookDispatcherConfig) (post : WebhookSubscription → WebhookDelivery → Response)
    (subscription : String → Option WebhookSubscription) (now : ℕ) where
  handled-overflow :
      (d : WebhookDelivery) (ds : Deliveries) (error : String)
      → last_float ≤ d.attempts
      → d.attempts + 1 < c.max_attempts
      → handle_failure c d (d.attempts + 1) error now ds ≡ (err overflow_error, ds)
  unfolding handle_failure compute_next_attempt_at
  handled-overflow d ds error many more =
      let open_end : leb c.max_attempts (d.attempts + 1) ≡ false = ground (arith, more) in
      let counted : ltb (d.attempts + 1) 1 ≡ false = ground arith in
      let large : ltb 1024 (d.attempts + 1) ≡ true = ground (arith, many) in
      rw (open_end, counted, large) refl

  settled-overflow :
      (d : WebhookDelivery) (ds : Deliveries) (r : Response)
      → is_sent r ≡ true
      → is_accepted r ≡ false
      → last_float ≤ d.attempts
      → d.attempts + 1 < c.max_attempts
      → settle c d (d.attempts + 1) now (failure_of r) ds ≡ (err overflow_error, ds)
  settled-overflow d ds (Response.timeout text) sent bad many more =
      handled-overflow d ds _ many more
  settled-overflow d ds (Response.network text) sent bad many more =
      handled-overflow d ds _ many more
  settled-overflow d ds (Response.invalid_url text) sent bad many more = absurd (cc sent)
  settled-overflow d ds (Response.status_code n) sent bad many more =
      rw bad (handled-overflow d ds _ many more)

  -- Where more than 1025 attempts are allowed: from 1024 attempts on, an attempt that an active
  -- subscription answers without success, and that is not the last one allowed, raises OverflowError
  -- and leaves the table as it is, so that the delivery stays due.
  pub dispatch-overflow :
      (d : WebhookDelivery) (ds : Deliveries) (sub : WebhookSubscription)
      → subscription d.subscription_id ≡ some sub
      → sub.active ≡ true
      → is_sent (post sub d) ≡ true
      → is_accepted (post sub d) ≡ false
      → last_float ≤ d.attempts
      → d.attempts + 1 < c.max_attempts
      → dispatch c post subscription now d ds ≡ (err overflow_error, ds)
  unfolding dispatch
  dispatch-overflow d ds sub there active sent bad many more =
      rw there
        (if-true sub.active _ _ active ∙ settled-overflow d ds (post sub d) sent bad many more)
