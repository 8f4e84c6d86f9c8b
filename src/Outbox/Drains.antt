-- ===== src/Outbox/Drains.antt =====
-- A whole batch of infra/persistence/outbox_dispatcher.py.
use meta_agent.Common.{
  ℕ, zero, suc, ◌≤◌, String, ◌≡◌, refl, ap, ◌∙◌, Bool, true, false, ◌&&◌, ◌||◌, Option, none, List,
  [], ◌∷◌, ◌==◌, eq_refl, eq_iff, not, arith, take, select, length, All, Bool-cases, inl, inr,
}
use meta_agent.Db.{OutboxEvent}
use meta_agent.Outbox.{
  is_due, insert_created, by_created, claim_pending, update_event, mark_dispatched,
  DispatcherConfig, dispatch_one, dispatch_events, run_once,
}

unfoldable has_id : String → List OutboxEvent → Bool
has_id id [] = false
has_id id (e ∷ es) = e.event_id == id || has_id id es

has_id-insert :
    (id : String) (e : OutboxEvent) (es : List OutboxEvent)
    → has_id id (insert_created e es) ≡ (e.event_id == id || has_id id es)
unfolding has_id insert_created
has_id-insert id e [] = refl
has_id-insert id e (f ∷ fs) = ground (arith, has_id-insert id e fs)

has_id-by_created : (id : String) (es : List OutboxEvent) → has_id id (by_created es) ≡ has_id id es
unfolding has_id by_created
has_id-by_created id [] = refl
has_id-by_created id (e ∷ es) =
    has_id-insert id e (by_created es) ∙ ap (λ b. e.event_id == id || b) (has_id-by_created id es)

length-insert_created :
    (e : OutboxEvent) (es : List OutboxEvent) → length (insert_created e es) ≡ suc (length es)
unfolding insert_created
length-insert_created e [] = refl
length-insert_created e (f ∷ fs) = ground (arith, length-insert_created e fs)

length-by_created : (es : List OutboxEvent) → length (by_created es) ≡ length es
unfolding by_created
length-by_created [] = refl
length-by_created (e ∷ es) = length-insert_created e (by_created es) ∙ ap suc (length-by_created es)

take_whole : (n : ℕ) (es : List OutboxEvent) → length es ≤ n → take n es ≡ es
take_whole zero [] le = refl
take_whole zero (e ∷ es) le = absurd (omega arith)
take_whole (suc n) [] le = refl
take_whole (suc n) (e ∷ es) le = ap (λ xs. e ∷ xs) (take_whole n es (omega arith))

module _ (now : ℕ) where
  -- every event that is due has its id in the batch
  abbrev Covered : List OutboxEvent → List OutboxEvent → Type 0
  Covered batch es = All (λ e. (is_due now e && not (has_id e.event_id batch)) ≡ false) es

  Covered-none : (es : List OutboxEvent) → Covered [] es → select (is_due now) es ≡ []
  unfolding has_id
  Covered-none [] h = refl
  Covered-none (e ∷ es) (h, hs) = ground (arith, h, Covered-none es hs)

  Covered-mark :
      (b : OutboxEvent) (batch es : List OutboxEvent) (at : ℕ)
      → Covered (b ∷ batch) es
      → Covered batch (mark_dispatched b.event_id at es)
  unfolding mark_dispatched update_event has_id
  Covered-mark b batch [] at h = tt
  Covered-mark b batch (e ∷ es) at (h, hs) = elim (Bool-cases (e.event_id == b.event_id)) [
    | inl same ↦ rw same (refl, Covered-mark b batch es at hs)
    | inr differs ↦ rw differs (
      ground (arith, h, eq_iff e.event_id b.event_id, eq_iff b.event_id e.event_id),
      Covered-mark b batch es at hs,
    )
  ]

  Covered-select :
      (batch es : List OutboxEvent)
      → ((id : String) → has_id id (select (is_due now) es) ≡ true → has_id id batch ≡ true)
      → Covered batch es
  unfolding has_id
  Covered-select batch [] h = tt
  Covered-select batch (e ∷ es) h = elim (Bool-cases (is_due now e)) [
    | inl due ↦
        let all = rw due at h in
        let first : has_id e.event_id batch ≡ true =
          all e.event_id (rw (eq_refl e.event_id) refl) in
        (
          rw (due, first) refl,
          Covered-select batch es (λ (id : String) (k : has_id id (select (is_due now) es) ≡ true).
              all id (rw k (ground arith))),
        )
    | inr later ↦ (rw later refl, Covered-select batch es (rw later at h))
  ]

  module _ (c : DispatcherConfig) (publish : OutboxEvent → Option String)
      (works : (e : OutboxEvent) → publish e ≡ none) where
    dispatch_one-eq :
        (at : ℕ) (e : OutboxEvent) (es : List OutboxEvent)
        → dispatch_one c publish at e es ≡ mark_dispatched e.event_id at es
    unfolding dispatch_one
    dispatch_one-eq at e es = rw (works e) refl

    Covered-dispatch :
        (clock : ℕ → ℕ) (batch es : List OutboxEvent)
        → Covered batch es
        → Covered [] (dispatch_events c publish clock batch es)
    unfolding dispatch_events
    Covered-dispatch clock [] es h = h
    Covered-dispatch clock (b ∷ batch) es h =
        Covered-dispatch (λ i. clock (suc i)) batch _
          (rw (dispatch_one-eq (clock 0) b es) (Covered-mark b batch es (clock 0) h))

-- With a publisher that works and a batch that is large enough for the events that are due, one
-- `run_once` returns their number, and leaves no event due at its time.
pub run_once_clears :
    (c : DispatcherConfig) (publish : OutboxEvent → Option String) (clock : ℕ → ℕ)
    (es : List OutboxEvent)
    → ((e : OutboxEvent) → publish e ≡ none)
    → length (select (is_due (clock 0)) es) ≤ c.batch_size
    → ((run_once c publish clock es).0 ≡ length (select (is_due (clock 0)) es))
      × (select (is_due (clock 0)) (run_once c publish clock es).1 ≡ [])
unfolding run_once claim_pending
run_once_clears c publish clock es works fits =
    let due = select (is_due (clock 0)) es in
    let whole : take c.batch_size (by_created due) ≡ by_created due =
      take_whole c.batch_size (by_created due) (rw (length-by_created due) fits) in
    rw whole (
      length-by_created due,
      Covered-none (clock 0) _ (
          Covered-dispatch (clock 0) c publish works (λ i. clock (suc i)) (by_created due) es
            (Covered-select (clock 0) (by_created due) es (λ id k. has_id-by_created id due ∙ k))),
    )
