-- ===== src/Outbox.antt =====
-- infra/persistence/outbox_dispatcher.py, and the statements of infra/persistence/outbox_repo.py
-- that it uses. The publisher is a parameter: `none` where `publish` returns, and else the text of
-- the exception that it raises. Log lines and the poll loop around `run_once` are not modelled.
pub mod Attempts
pub mod Drains
use meta_agent.Common.{
  ℕ, zero, suc, ◌+◌, ◌*◌, ◌^◌, min, String, Bool, true, false, ◌&&◌, Option, none, some, List, [],
  ◌∷◌, ◌==◌, ltb, leb, if◌then◌else◌, take, select, length,
}
use meta_agent.Db.{OutboxEvent, OutboxStatus, pending, dispatched, failed}

abbrev pub is_pending : OutboxStatus → Bool
is_pending pending = true
is_pending dispatched = false
is_pending failed = false

-- next_attempt_at IS NULL OR next_attempt_at <= $1
abbrev pub reached : Option ℕ → ℕ → Bool
reached none now = true
reached (some at) now = leb at now

abbrev pub is_due : ℕ → OutboxEvent → Bool
is_due now e = is_pending e.status && reached e.next_attempt_at now

-- ORDER BY created_at, stable
unfoldable pub insert_created : OutboxEvent → List OutboxEvent → List OutboxEvent
insert_created e [] = e ∷ []
insert_created e (f ∷ fs) =
    let rest = insert_created e fs in if ltb f.created_at e.created_at then f ∷ rest else e ∷ f ∷ fs

unfoldable pub by_created : List OutboxEvent → List OutboxEvent
unfolding insert_created
by_created [] = []
by_created (e ∷ es) = insert_created e (by_created es)

-- PgOutboxRepository.claim_pending: its transaction ends before the caller has the rows
unfoldable pub claim_pending : ℕ → ℕ → List OutboxEvent → List OutboxEvent
claim_pending batch_size now es = take batch_size (by_created (select (is_due now) es))

-- UPDATE outbox_events SET … WHERE event_id = $1
unfoldable pub update_event :
    String → (OutboxEvent → OutboxEvent) → List OutboxEvent → List OutboxEvent
update_event id f [] = []
update_event id f (e ∷ es) =
    let rest = update_event id f es in if e.event_id == id then f e ∷ rest else e ∷ rest

abbrev pub dispatched_row : ℕ → OutboxEvent → OutboxEvent
dispatched_row at e = record e { status = dispatched; dispatched_at = some at; last_error = none }

abbrev pub failed_row : String → Option ℕ → Bool → OutboxEvent → OutboxEvent
failed_row error next_at terminal e = record e {
  status = if terminal then failed else pending;
  attempts = e.attempts + 1;
  last_error = some error;
  next_attempt_at = next_at;
}

unfoldable pub mark_dispatched : String → ℕ → List OutboxEvent → List OutboxEvent
mark_dispatched id at = update_event id (dispatched_row at)

unfoldable pub mark_failed : String → String → Option ℕ → Bool → List OutboxEvent → List OutboxEvent
mark_failed id error next_at terminal = update_event id (failed_row error next_at terminal)

pub record DispatcherConfig : Type 0 where
  pub batch_size : ℕ
  pub max_attempts : ℕ
  pub base_backoff : ℕ
  pub max_backoff : ℕ

module _ (c : DispatcherConfig) where
  abbrev pub delay : ℕ → ℕ
  delay attempts = min (c.base_backoff * 2 ^ attempts) c.max_backoff

  -- OutboxDispatcher._handle_failure
  unfoldable pub handle_failure : OutboxEvent → String → ℕ → List OutboxEvent → List OutboxEvent
  handle_failure e error now es =
      let terminal = leb c.max_attempts (e.attempts + 1) in
      mark_failed e.event_id error (if terminal then none else some (now + delay e.attempts))
        terminal es

  abbrev published : Option String → ℕ → OutboxEvent → List OutboxEvent → List OutboxEvent
  published none now e es = mark_dispatched e.event_id now es
  published (some error) now e es = handle_failure e error now es

  -- OutboxDispatcher._dispatch_one, at the time `now` after the publication
  unfoldable pub dispatch_one :
      (OutboxEvent → Option String) → ℕ → OutboxEvent → List OutboxEvent → List OutboxEvent
  dispatch_one publish now e es = published (publish e) now e es

  -- the loop of `run_once`: the event at place i of the batch is handled at `clock i`
  unfoldable pub dispatch_events :
      (OutboxEvent → Option String)
      → (ℕ → ℕ)
      → List OutboxEvent
      → List OutboxEvent
      → List OutboxEvent
  dispatch_events publish clock [] es = es
  dispatch_events publish clock (e ∷ batch) es =
      dispatch_events publish (λ i. clock (suc i)) batch (dispatch_one publish (clock 0) e es)

  -- OutboxDispatcher.run_once
  unfoldable pub run_once :
      (OutboxEvent → Option String) → (ℕ → ℕ) → List OutboxEvent → ℕ × List OutboxEvent
  unfolding dispatch_events
  run_once publish clock es =
      let batch = claim_pending c.batch_size (clock 0) es in
      (length batch, dispatch_events publish (λ i. clock (suc i)) batch es)
