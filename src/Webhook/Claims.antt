-- ===== src/Webhook/Claims.antt =====
-- How deliveries enter the queue and leave it in batches: `enqueue` and `claim_pending` of
-- infra/persistence/webhook_repo.py.
use meta_agent.Common.{
  ℕ, zero, suc, ◌≤◌, min, ◌≡◌, refl, Bool, true, Option, [], ◌∷◌, ◌++◌, eq_refl, arith, ltb, take,
  select, length, All, Bool-cases, inl, inr,
}
use meta_agent.Errors.{ok}
use meta_agent.Context.{RequestContext}
use meta_agent.Webhook.{
  WebhookDelivery, Deliveries, is_due, insert_due, by_due, claim_pending, has_delivery, enqueue,
}

length-insert : (d : WebhookDelivery) (ds : Deliveries) → length (insert_due d ds) ≡ suc (length ds)
unfolding insert_due
length-insert d [] = refl
length-insert d (e ∷ es) = ground (arith, length-insert d es)

length-by_due : (ds : Deliveries) → length (by_due ds) ≡ length ds
unfolding by_due
length-by_due [] = refl
length-by_due (d ∷ ds) = omega (arith, length-insert d (by_due ds), length-by_due ds)

length-take-min : (n : ℕ) (ds : Deliveries) → length (take n ds) ≡ min n (length ds)
length-take-min zero ds = omega arith
length-take-min (suc n) [] = omega arith
length-take-min (suc n) (d ∷ ds) = omega (arith, length-take-min n ds)

module _ (P : WebhookDelivery → Type 0) where
  All-insert : (d : WebhookDelivery) (ds : Deliveries) → P d → All P ds → All P (insert_due d ds)
  unfolding insert_due
  All-insert d [] p ps = (p, tt)
  All-insert d (e ∷ es) p (q, qs) = elim (Bool-cases (ltb e.next_attempt_at d.next_attempt_at)) [
    | inl later ↦ rw later (q, All-insert d es p qs)
    | inr first ↦ rw first (p, (q, qs))
  ]

  All-by_due : (ds : Deliveries) → All P ds → All P (by_due ds)
  unfolding by_due
  All-by_due [] ps = tt
  All-by_due (d ∷ ds) (p, ps) = All-insert d (by_due ds) p (All-by_due ds ps)

  All-take : (n : ℕ) (ds : Deliveries) → All P ds → All P (take n ds)
  All-take zero ds ps = tt
  All-take (suc n) [] ps = tt
  All-take (suc n) (d ∷ ds) (p, ps) = (p, All-take n ds ps)

All-select : (p : WebhookDelivery → Bool) (ds : Deliveries) → All (λ d. p d ≡ true) (select p ds)
All-select p [] = tt
All-select p (d ∷ ds) = elim (Bool-cases (p d)) [
  | inl passes ↦ rw passes (passes, All-select p ds)
  | inr fails ↦ rw fails (All-select p ds)
]

-- no delivery of the list is due before the first one
abbrev pub FromFirst : Deliveries → Type 0
FromFirst [] = Unit
FromFirst (d ∷ ds) = All (λ e. d.next_attempt_at ≤ e.next_attempt_at) ds × FromFirst ds

Weaker :
    (m n : ℕ) (ds : Deliveries)
    → m ≤ n
    → All (λ e. n ≤ e.next_attempt_at) ds
    → All (λ e. m ≤ e.next_attempt_at) ds
Weaker m n [] le ps = tt
Weaker m n (d ∷ ds) le (p, ps) = (omega arith, Weaker m n ds le ps)

FromFirst-insert :
    (d : WebhookDelivery) (ds : Deliveries) → FromFirst ds → FromFirst (insert_due d ds)
unfolding insert_due
FromFirst-insert d [] h = (tt, tt)
FromFirst-insert d (e ∷ es) (least, h) =
    elim (Bool-cases (ltb e.next_attempt_at d.next_attempt_at)) [
      | inl later ↦ rw later (
        All-insert (λ x. e.next_attempt_at ≤ x.next_attempt_at) d es (ground (arith, later)) least,
        FromFirst-insert d es h,
      )
      | inr first ↦
          let le : d.next_attempt_at ≤ e.next_attempt_at = ground (arith, first) in
          rw first ((le, Weaker d.next_attempt_at e.next_attempt_at es le least), (least, h))
    ]

FromFirst-by_due : (ds : Deliveries) → FromFirst (by_due ds)
unfolding by_due
FromFirst-by_due [] = tt
FromFirst-by_due (d ∷ ds) = FromFirst-insert d (by_due ds) (FromFirst-by_due ds)

FromFirst-take : (n : ℕ) (ds : Deliveries) → FromFirst ds → FromFirst (take n ds)
FromFirst-take zero ds h = tt
FromFirst-take (suc n) [] h = tt
FromFirst-take (suc n) (d ∷ ds) (least, h) =
    (All-take (λ x. d.next_attempt_at ≤ x.next_attempt_at) n ds least, FromFirst-take n ds h)

-- A claim takes as many of the due pending deliveries as the batch allows, only deliveries that are
-- pending and due, those due first before the others, and leaves the table as it was.
pub claim_law :
    (batch_size now : ℕ) (ds : Deliveries)
    → let claimed = (claim_pending batch_size now ds).0 in
      (length claimed ≡ min batch_size (length (select (is_due now) ds)))
      × All (λ d. is_due now d ≡ true) claimed
      × FromFirst claimed
      × ((claim_pending batch_size now ds).1 ≡ ds)
unfolding claim_pending
claim_law n now ds = (
  rw (length-take-min n (by_due (select (is_due now) ds)), length-by_due (select (is_due now) ds))
      refl,
  All-take (λ d. is_due now d ≡ true) n _
      (All-by_due (λ d. is_due now d ≡ true) _ (All-select (is_due now) ds)),
  FromFirst-take n _ (FromFirst-by_due (select (is_due now) ds)),
  refl,
)

has_delivery-append :
    (d : WebhookDelivery) (ds : Deliveries)
    → has_delivery d.tenant_id d.idempotency_key (ds ++ d ∷ []) ≡ true
unfolding has_delivery
has_delivery-append d [] = rw (eq_refl d.tenant_id, eq_refl d.idempotency_key) refl
has_delivery-append d (e ∷ es) = rw (has_delivery-append d es) (ground arith)

-- A delivery that was enqueued is enqueued once: a later one with the same tenant and idempotency
-- key is accepted and changes nothing.
pub enqueue_once :
    (bound : Option RequestContext) (d e : WebhookDelivery) (ds : Deliveries)
    → (enqueue bound d ds).0 ≡ ok tt
    → e.tenant_id ≡ d.tenant_id
    → e.idempotency_key ≡ d.idempotency_key
    → (has_delivery d.tenant_id d.idempotency_key (enqueue bound d ds).1 ≡ true)
      × (enqueue bound e (enqueue bound d ds).1 ≡ (ok tt, (enqueue bound d ds).1))
unfolding enqueue
enqueue_once bound d e ds h same_tenant same_key = ground (arith, has_delivery-append d ds)
