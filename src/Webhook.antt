-- ===== src/Webhook.antt =====
-- core/domain/webhook.py, infra/persistence/webhook_repo.py and infra/webhook/dispatcher.py: the
-- queue of webhook deliveries and the dispatcher that drains it. Times are microseconds. The HTTP
-- client is a parameter: what `post` answers for a subscription and a delivery; the JSON body and
-- its HMAC signature, which only the receiver reads, are not modelled.
pub mod Backoff
pub mod Lifecycle
pub mod Claims
pub mod GivesUp
use meta_agent.Common.{
  ℕ, zero, suc, ◌+◌, ◌-◌, ◌*◌, ◌^◌, min, String, Bool, true, false, not, ◌&&◌, ◌||◌, Option, none,
  some, [], List, ◌∷◌, ◌++◌, ◌==◌, ltb, leb, if◌then◌else◌, take, select, length,
}
use meta_agent.Errors.{Result, ok, err, failure, overflow_error, value_error, unique_violation}
use meta_agent.Context.{RequestContext, check_tenant}
use meta_agent.Dict.{Dict}
use meta_agent.Value.{Value}
use meta_agent.Format.{decimal, ◌+++◌}

pub data WebhookDeliveryStatus : Type 0 where
  pending dispatched dead_letter : WebhookDeliveryStatus

pub record WebhookSubscription : Type 0 where
  pub subscription_id : String
  pub tenant_id : String
  pub url : String
  pub secret : String
  pub events : List String
  pub active : Bool
  pub created_at : ℕ

pub record WebhookDelivery : Type 0 where
  pub delivery_id : String
  pub subscription_id : String
  pub tenant_id : String
  pub trace_id : String
  pub event_action : String
  pub payload : Dict Value
  pub idempotency_key : String
  pub status : WebhookDeliveryStatus
  pub attempts : ℕ
  pub next_attempt_at : ℕ
  pub last_error : Option String
  pub created_at : ℕ
  pub dispatched_at : Option ℕ

abbrev pub Deliveries : Type 0
Deliveries = List WebhookDelivery

abbrev pub is_pending : WebhookDeliveryStatus → Bool
is_pending pending = true
is_pending dispatched = false
is_pending dead_letter = false

-- UPDATE webhook_deliveries SET … WHERE delivery_id = $1 [AND status = 'pending']
unfoldable pub update_delivery :
    String → Bool → (WebhookDelivery → WebhookDelivery) → Deliveries → Deliveries
update_delivery id pending_only f [] = []
update_delivery id pending_only f (d ∷ ds) =
    let rest = update_delivery id pending_only f ds in
    if d.delivery_id == id && (not pending_only || is_pending d.status)
    then f d ∷ rest
    else d ∷ rest

abbrev pub dispatched_row : ℕ → ℕ → WebhookDelivery → WebhookDelivery
dispatched_row at attempts d = record d {
  status = dispatched;
  dispatched_at = some at;
  attempts = attempts;
  last_error = none;
}

abbrev pub retry_row : ℕ → String → ℕ → WebhookDelivery → WebhookDelivery
retry_row next_at error attempts d = record d {
  next_attempt_at = next_at;
  last_error = some error;
  attempts = attempts;
}

abbrev pub dead_row : ℕ → String → ℕ → WebhookDelivery → WebhookDelivery
dead_row at error attempts d = record d {
  status = dead_letter;
  dispatched_at = some at;
  last_error = some error;
  attempts = attempts;
}

-- mark_dispatched, mark_retry, mark_dead_letter
unfoldable pub mark_dispatched : String → ℕ → ℕ → Deliveries → Deliveries
mark_dispatched id at attempts = update_delivery id false (dispatched_row at attempts)

unfoldable pub mark_retry : String → ℕ → String → ℕ → Deliveries → Deliveries
mark_retry id next_at error attempts = update_delivery id true (retry_row next_at error attempts)

unfoldable pub mark_dead_letter : String → String → ℕ → ℕ → Deliveries → Deliveries
mark_dead_letter id error attempts at = update_delivery id false (dead_row at error attempts)

-- ON CONFLICT (tenant_id, idempotency_key) DO NOTHING
unfoldable pub has_delivery : String → String → Deliveries → Bool
has_delivery tenant_id key [] = false
has_delivery tenant_id key (d ∷ ds) =
    d.tenant_id == tenant_id && d.idempotency_key == key || has_delivery tenant_id key ds

-- the primary key
unfoldable pub has_delivery_id : String → Deliveries → Bool
has_delivery_id id [] = false
has_delivery_id id (d ∷ ds) = d.delivery_id == id || has_delivery_id id ds

abbrev enqueue_checked :
    WebhookDelivery → Deliveries → Result (Unit {0}) → Result (Unit {0}) × Deliveries
enqueue_checked d ds (err e) = (err e, ds)
enqueue_checked d ds (ok u) =
    if has_delivery d.tenant_id d.idempotency_key ds
    then (ok tt, ds)
    else if has_delivery_id d.delivery_id ds
    then (err unique_violation, ds)
    else (ok tt, ds ++ d ∷ [])

unfoldable pub enqueue :
    Option RequestContext → WebhookDelivery → Deliveries → Result (Unit {0}) × Deliveries
enqueue bound d ds = enqueue_checked d ds (check_tenant bound d.tenant_id)

-- ORDER BY next_attempt_at ASC, stable
unfoldable pub insert_due : WebhookDelivery → Deliveries → Deliveries
insert_due d [] = d ∷ []
insert_due d (e ∷ es) =
    let rest = insert_due d es in
    if ltb e.next_attempt_at d.next_attempt_at then e ∷ rest else d ∷ e ∷ es

unfoldable pub by_due : Deliveries → Deliveries
unfolding insert_due
by_due [] = []
by_due (d ∷ ds) = insert_due d (by_due ds)

abbrev pub is_due : ℕ → WebhookDelivery → Bool
is_due now d = is_pending d.status && leb d.next_attempt_at now

-- claim_pending: a SELECT … FOR UPDATE in a transaction of its own. The locks end with it, before
-- the caller has the rows, so the table shows no trace of the claim.
unfoldable pub claim_pending : ℕ → ℕ → Deliveries → Deliveries × Deliveries
unfolding by_due
claim_pending batch_size now ds = (take batch_size (by_due (select (is_due now) ds)), ds)

pub record WebhookDispatcherConfig : Type 0 where
  pub batch_size : ℕ
  pub max_attempts : ℕ
  pub base_delay : ℕ
  pub max_delay : ℕ

-- min(base * 2 ** (attempt_number - 1), max), where the product exists
unfoldable pub backoff : WebhookDispatcherConfig → ℕ → ℕ
backoff c attempt_number = min (c.base_delay * 2 ^ (attempt_number - 1)) c.max_delay

-- 2 ** 1024 is no float any more: its product with the base delay raises. A product of floats that
-- is too large is infinite, and the minimum is the cap.
unfoldable pub compute_next_attempt_at : WebhookDispatcherConfig → ℕ → ℕ → Result ℕ
compute_next_attempt_at c now attempt_number =
    if ltb attempt_number 1
    then err value_error
    else if ltb 1024 attempt_number
    then err overflow_error
    else ok (now + backoff c attempt_number)

-- what the HTTP client does with one POST: httpx.TimeoutException, any other httpx.HTTPError, an
-- httpx.InvalidURL, which is none and which nobody catches, or a response
pub data Response : Type 0 where
  timeout network invalid_url : String → Response
  status_code : ℕ → Response

-- what the attempt goes on with: the text of a failure that is stored, if it failed
abbrev pub failure_of : Response → Result (Option String)
failure_of (timeout text) = ok (some ("timeout: " +++ text))
failure_of (network text) = ok (some ("network: " +++ text))
failure_of (invalid_url text) = err (failure text)
failure_of (status_code n) =
    ok (if leb 200 n && ltb n 300 then none else some ("http " +++ decimal n))

module _ (c : WebhookDispatcherConfig) where
  abbrev retry :
      WebhookDelivery → ℕ → String → Result ℕ → Deliveries → Result (Unit {0}) × Deliveries
  retry d attempts error (ok next_at) ds =
      (ok tt, mark_retry d.delivery_id next_at error attempts ds)
  retry d attempts error (err e) ds = (err e, ds)

  -- `_handle_failure` on the table
  unfoldable pub handle_failure :
      WebhookDelivery → ℕ → String → ℕ → Deliveries → Result (Unit {0}) × Deliveries
  handle_failure d attempts error now ds =
      if leb c.max_attempts attempts
      then (ok tt, mark_dead_letter d.delivery_id error attempts now ds)
      else retry d attempts error (compute_next_attempt_at c now attempts) ds

  abbrev pub settle :
      WebhookDelivery → ℕ → ℕ → Result (Option String) → Deliveries → Result (Unit {0}) × Deliveries
  settle d attempts now (err e) ds = (err e, ds)
  settle d attempts now (ok none) ds = (ok tt, mark_dispatched d.delivery_id now attempts ds)
  settle d attempts now (ok (some error)) ds = handle_failure d attempts error now ds

  abbrev send :
      (WebhookSubscription → WebhookDelivery → Response)
      → Option WebhookSubscription
      → WebhookDelivery
      → ℕ
      → Deliveries
      → Result (Unit {0}) × Deliveries
  send post none d now ds = (
    ok tt,
    mark_dead_letter d.delivery_id "subscription missing or inactive" (d.attempts + 1) now ds,
  )
  send post (some sub) d now ds =
      if sub.active then settle d (d.attempts + 1) now (failure_of (post sub d)) ds else (
        ok tt,
        mark_dead_letter d.delivery_id "subscription missing or inactive" (d.attempts + 1) now ds,
      )

  -- `_dispatch`; `subscription` is what the repository answers, `now` the clock after the POST
  unfoldable pub dispatch :
      (WebhookSubscription → WebhookDelivery → Response)
      → (String → Option WebhookSubscription)
      → ℕ
      → WebhookDelivery
      → Deliveries
      → Result (Unit {0}) × Deliveries
  dispatch post subscription now d ds = send post (subscription d.subscription_id) d now ds

  -- the loop of `run_once`: the delivery at place `i` of the batch is handled at `clock i`
  unfoldable pub dispatch_all :
      (WebhookSubscription → WebhookDelivery → Response)
      → (String → Option WebhookSubscription)
      → (ℕ → ℕ)
      → Deliveries
      → Deliveries
      → Result (Unit {0}) × Deliveries
  dispatch_all post subscription clock [] ds = (ok tt, ds)
  dispatch_all post subscription clock (d ∷ batch) ds =
      let (answer, ds') = dispatch post subscription (clock 0) d ds in
      let rest = dispatch_all post subscription (λ i. clock (suc i)) batch ds' in
      elim answer [ ok u ↦ rest | err e ↦ (err e, ds') ]

  -- `run_once`: the number of deliveries handled
  unfoldable pub run_once :
      (WebhookSubscription → WebhookDelivery → Response)
      → (String → Option WebhookSubscription)
      → (ℕ → ℕ)
      → Deliveries
      → Result ℕ × Deliveries
  unfolding dispatch_all
  run_once post subscription clock ds =
      let (batch, ds') = claim_pending c.batch_size (clock 0) ds in
      let (answer, ds'') = dispatch_all post subscription (λ i. clock (suc i)) batch ds' in
      (elim answer [ ok u ↦ ok (length batch) | err e ↦ err e ], ds'')
