-- ===== src/Outbox/Attempts.antt =====
-- One attempt of infra/persistence/outbox_dispatcher.py at publishing an event.
use meta_agent.Common.{
  ℕ, ◌+◌, String, ◌≡◌, refl, ap, true, false, Option, none, some, List, [], ◌∷◌, ◌==◌, leb,
  if◌then◌else◌, Option-cases, Bool-cases, inl, inr,
}
use meta_agent.Db.{OutboxEvent, pending, dispatched, failed}
use meta_agent.Outbox.{
  update_event, dispatched_row, failed_row, mark_dispatched, mark_failed, DispatcherConfig, delay,
  handle_failure, dispatch_one,
}

-- SELECT * FROM outbox_events WHERE event_id = $1
unfoldable pub find_event : String → List OutboxEvent → Option OutboxEvent
find_event id [] = none
find_event id (e ∷ es) = if e.event_id == id then some e else find_event id es

find-update_event :
    (id : String) (f : OutboxEvent → OutboxEvent) (es : List OutboxEvent) (e : OutboxEvent)
    → ((x : OutboxEvent) → (f x).event_id ≡ x.event_id)
    → find_event id es ≡ some e
    → find_event id (update_event id f es) ≡ some (f e)
unfolding find_event update_event
find-update_event id f [] e keep h = cc
find-update_event id f (x ∷ es) e keep h = elim (Bool-cases (x.event_id == id)) [
  | inl here ↦
      let same : x ≡ e = cc (rw here at h) in
      let kept : ((f x).event_id == id) ≡ true = rw (keep x) here in
      rw here (rw kept (ap (λ y. some (f y)) same))
  | inr further ↦ rw further (rw further (find-update_event id f es e keep (rw further at h)))
]

-- the row of an event after an attempt that publishes it, or raises with a text
abbrev pub after_attempt : DispatcherConfig → ℕ → Option String → OutboxEvent → OutboxEvent
after_attempt c now none e = record e {
  status = dispatched;
  dispatched_at = some now;
  last_error = none;
}
after_attempt c now (some error) e =
    if leb c.max_attempts (e.attempts + 1)
    then record e {
      status = failed;
      attempts = e.attempts + 1;
      last_error = some error;
      next_attempt_at = none;
    }
    else record e {
      status = pending;
      attempts = e.attempts + 1;
      last_error = some error;
      next_attempt_at = some (now + delay c e.attempts);
    }

-- An attempt at an event that is in the table as it was claimed leaves its row dispatched if the
-- publication succeeds; if it raises, the text is stored, one more attempt is counted, and the row
-- is failed for good when that was the last attempt allowed, and else pending and due again after
-- the backoff.
pub find_event-dispatch_one :
    (c : DispatcherConfig) (publish : OutboxEvent → Option String) (now : ℕ) (e : OutboxEvent)
    (es : List OutboxEvent)
    → find_event e.event_id es ≡ some e
    → find_event e.event_id (dispatch_one c publish now e es)
      ≡ some (after_attempt c now (publish e) e)
unfolding dispatch_one mark_dispatched mark_failed handle_failure
find_event-dispatch_one c publish now e es found = elim (Option-cases (publish e)) [
  | inl sent ↦ rw sent (find-update_event e.event_id (dispatched_row now) es e (λ x. refl) found)
  | inr (error, raised) ↦ rw raised (elim (Bool-cases (leb c.max_attempts (e.attempts + 1))) [
    | inl last ↦
        rw last (find-update_event e.event_id (failed_row error none true) es e (λ x. refl) found)
    | inr more ↦ rw more (
        find-update_event e.event_id (failed_row error (some (now + delay c e.attempts)) false) es e
          (λ x. refl) found)
  ])
]
