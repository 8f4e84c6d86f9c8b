-- ===== src/Examples/Queueing.antt =====
-- Examples for Outbox.
use meta_agent.Common.{ℕ, ◌+◌, String, ◌≡◌, refl, none, some, List, [], ◌∷◌, length, select, arith}
use meta_agent.Db.{OutboxEvent, OutboxStatus}
use meta_agent.Outbox.{DispatcherConfig, is_due, run_once}
use meta_agent.Outbox.Drains.{run_once_clears}

abbrev settings : DispatcherConfig
settings = record { batch_size = 2; max_attempts = 3; base_backoff = 10; max_backoff = 25 }

abbrev event : String → ℕ → OutboxEvent
event id due = record {
  event_id = id;
  tenant_id = "acme";
  trace_id = "trace";
  aggregate_type = "task";
  aggregate_id = "t1";
  topic = "task.resume";
  payload = [];
  idempotency_key = id;
  status = OutboxStatus.pending;
  attempts = 2;
  created_at = 1;
  dispatched_at = none;
  next_attempt_at = some due;
  last_error = none;
}

abbrev events : List OutboxEvent
events = event "e1" 50 ∷ event "e2" 4 ∷ event "e3" 3 ∷ []

run_once_clears_example :
    ((run_once settings (λ e. none) (λ i. 9 + i) events).0 ≡ length (select (is_due 9) events))
    × (select (is_due 9) (run_once settings (λ e. none) (λ i. 9 + i) events).1 ≡ [])
run_once_clears_example =
    run_once_clears settings (λ e. none) (λ i. 9 + i) events (λ e. refl) (omega arith)
