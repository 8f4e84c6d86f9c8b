-- ===== src/Worker/Recovery.antt =====
-- What `recover_in_flight` of worker/runner.py puts on the queue.
use meta_agent.Common.{
  ℕ, suc, ◌+◌, ◌≤◌, ◌≡◌, refl, ap, sym, ◌∙◌, ◌||◌, ◌⊎◌, inl, inr, Bool, true, false, Option, some,
  List, [], ◌∷◌, ◌++◌, map, arith, eq_refl, Bool-cases, length, take, length-take, select,
}
use mathlib.Core.Path.{subst}
use meta_agent.Value.{str}
use meta_agent.Errors.{Error, Result, ok, err, Result-cases, unique_violation}
use meta_agent.Context.{RequestContext, check_tenant}
use meta_agent.Task.{Task, is_running}
use meta_agent.TaskRepo.{list_running_for_resume}
use meta_agent.TaskRepo.Rows.{Row, Tasks, order_by}
use meta_agent.Db.{Db, OutboxEvent, enqueue_event, has_event, has_event_id, has_checkpoint_id}
use meta_agent.Worker.{WorkerLoop, World}
use meta_agent.Worker.Fresh.{IsFresh, IsInjective, audit-ok, audit-Untouched}
use meta_agent.Worker.Load.{task_to_context}
use meta_agent.Worker.Recover.{
  recover_task, recover_all, recover_in_flight, recover_event, recover_into, reported, counted,
}

enqueue-cases :
    (bound : Option RequestContext) (e : OutboxEvent) (db : Db)
    → ((x : Error) × (enqueue_event bound e db ≡ (err x, db)))
      ⊎ (enqueue_event bound e db ≡ (ok tt, record db { outbox = db.outbox ++ e ∷ [] }))
unfolding enqueue_event
enqueue-cases bound e db = elim (Result-cases (check_tenant bound e.tenant_id)) [
  | inl (x, refused) ↦ inl (x, rw refused refl)
  | inr (u, passed) ↦
      elim (Bool-cases
        (has_event_id e.event_id db.outbox || has_event e.tenant_id e.idempotency_key db.outbox)) [
          | inl taken ↦ inl (unique_violation, rw (passed, taken) refl)
          | inr free ↦ inr (rw (passed, free) refl)
        ]
]

length-append : (es : List OutboxEvent) (e : OutboxEvent) → length (es ++ e ∷ []) ≡ suc (length es)
length-append [] e = refl
length-append (x ∷ es) e = ap suc (length-append es e)

-- `n` events were added, and neither a task nor a checkpoint was touched
abbrev pub Added : ℕ → Db → Db → Type 0
Added n db db' =
    (db'.tasks ≡ db.tasks)
    × (db'.checkpoints ≡ db.checkpoints)
    × (length db'.outbox ≡ length db.outbox + n)

Added-trans : (m n : ℕ) (a b c : Db) → Added m a b → Added n b c → Added (m + n) a c
Added-trans m n a b c (t, k, o) (t', k', o') = (t' ∙ t, k' ∙ k, omega (arith, o, o'))

abbrev is_ok : Result (Unit {0}) → Bool
is_ok (ok u) = true
is_ok (err e) = false

length-map : (rows : Tasks) → length (map (λ (r : Row). r.task) rows) ≡ length rows
length-map [] = refl
length-map (r ∷ rows) = ap suc (length-map rows)

module _ {Deps : Type 0} (w : WorkerLoop Deps) where
  own_tenant : (task : Task) → check_tenant (some (task_to_context task)) task.tenant_id ≡ ok tt
  unfolding check_tenant
  own_tenant task = rw (eq_refl task.tenant_id) refl

  -- the audit behind an enqueue succeeds on fresh ids and touches no table
  reported-ok :
      (task : Task) (answer : Result (Unit {0})) (s : World)
      → IsInjective w.id_factory
      → IsFresh w s
      → ((reported w task answer s).0 ≡ ok (is_ok answer))
        × IsFresh w (reported w task answer s).1
        × ((reported w task answer s).1.db ≡ s.db)
  reported-ok task (err e) s inj fresh =
      let ctx = task_to_context task in
      let payload =
        ("task_id", str task.task_id) ∷ ("error_type", str (w.formats.type_name e)) ∷ [] in
      let (done, fresh') =
        audit-ok w (some ctx) ctx "worker.recover_failed" payload s (own_tenant task) inj fresh in
      rw done (refl, fresh', (audit-Untouched w (some ctx) ctx "worker.recover_failed" payload s).0)
  reported-ok task (ok u) s inj fresh =
      let ctx = task_to_context task in
      let payload = ("task_id", str task.task_id) ∷ [] in
      let (done, fresh') =
        audit-ok w (some ctx) ctx "worker.task_recovered" payload s (own_tenant task) inj fresh in
      rw done (refl, fresh', (audit-Untouched w (some ctx) ctx "worker.task_recovered" payload s).0)

  -- the world behind the enqueue of an event
  abbrev queued : World → Result (Unit {0}) × Db → World
  queued s (answer, db) = record s { db = db; minted = suc s.minted; ticks = suc s.ticks }

  queued-IsFresh :
      (bound : Option RequestContext) (e : OutboxEvent) (s : World)
      → IsFresh w s
      → (enqueue_event bound e s.db).1.checkpoints ≡ s.db.checkpoints
      → IsFresh w (queued s (enqueue_event bound e s.db))
  queued-IsFresh bound e s fresh same = record {
    no_checkpoint = λ i h.
        ap (has_checkpoint_id (w.id_factory i)) same ∙ fresh.no_checkpoint i (omega (arith, h));
    no_audit = λ i h. fresh.no_audit i (omega (arith, h));
  }

  enqueue-Added :
      (bound : Option RequestContext) (e : OutboxEvent) (db : Db)
      → Added (counted w (is_ok (enqueue_event bound e db).0) 0) db (enqueue_event bound e db).1
  enqueue-Added bound e db = elim (enqueue-cases bound e db) [
    | inl (x, refused) ↦ rw refused (refl, refl, omega arith)
    | inr stored ↦ rw stored (refl, refl, omega (arith, length-append db.outbox e))
  ]

  recover_task-Added :
      (task : Task) (s : World)
      → IsInjective w.id_factory
      → IsFresh w s
      → (b : Bool) × ((recover_task w task s).0 ≡ ok b)
        × IsFresh w (recover_task w task s).1
        × Added (counted w b 0) s.db (recover_task w task s).1.db
  unfolding recover_task
  recover_task-Added task s inj fresh =
      let bound = some (task_to_context task) in
      let e = recover_event w task (w.clock s.ticks) (w.id_factory s.minted) in
      let added = enqueue-Added bound e s.db in
      let (done, fresh', db) =
        reported-ok task (enqueue_event bound e s.db).0 (queued s (enqueue_event bound e s.db)) inj
          (queued-IsFresh bound e s fresh added.1) in
      (
        _,
        done,
        fresh',
        subst (Added (counted w (is_ok (enqueue_event bound e s.db).0) 0) s.db) (sym db) added,
      )

  counted-add : (b : Bool) (n : ℕ) → counted w b n ≡ counted w b 0 + n
  counted-add true n = omega arith
  counted-add false n = omega arith

  counted-le : (k n : ℕ) (b : Bool) → n ≤ k → counted w b 0 + n ≤ suc k
  counted-le k n true h = omega (arith, h)
  counted-le k n false h = omega (arith, h)

  recover_all-Added :
      (tasks : List Task) (count : ℕ) (s : World)
      → IsInjective w.id_factory
      → IsFresh w s
      → (n : ℕ) × ((recover_all w tasks count s).0 ≡ ok (n + count))
        × (n ≤ length tasks)
        × Added n s.db (recover_all w tasks count s).1.db
  unfolding recover_all
  recover_all-Added [] count s inj fresh =
      (0, ap ok (omega arith), omega arith, (refl, refl, omega arith))
  recover_all-Added (task ∷ tasks) count s inj fresh =
      let (b, done, fresh', added) = recover_task-Added task s inj fresh in
      let (n, all, le, more) =
        recover_all-Added tasks (counted w b count) (recover_task w task s).1 inj fresh' in
      rw done (
        counted w b 0 + n,
        all ∙ ap ok (omega (arith, counted-add b count)),
        counted-le (length tasks) n b le,
        Added-trans (counted w b 0) n s.db _ _ added more,
      )

  recover_into-Added :
      (outbox : Bool) (limit : ℕ) (s : World)
      → IsInjective w.id_factory
      → IsFresh w s
      → (n : ℕ) × ((recover_into w outbox limit s).0 ≡ ok n)
        × (n ≤ limit)
        × Added n s.db (recover_into w outbox limit s).1.db
  unfolding list_running_for_resume
  recover_into-Added false limit s inj fresh = (0, refl, omega arith, (refl, refl, omega arith))
  recover_into-Added true limit s inj fresh =
      let found =
        order_by (λ r. r.task.created_at) (select (λ r. is_running r.task.state) s.db.tasks) in
      let (n, all, le, added) =
        recover_all-Added (map (λ r. r.task) (take limit found)) 0 s inj fresh in
      (
        n,
        all ∙ ap ok (omega arith),
        omega (arith, le, length-map (take limit found), length-take limit found),
        added,
      )

  -- With ids that are never repeated, a recovery always returns; it returns the number of events that
  -- it added to the outbox, at most `limit`, and leaves the tables of tasks and checkpoints alone.
  pub recover_law :
      (limit : ℕ) (s : World)
      → IsInjective w.id_factory
      → IsFresh w s
      → (n : ℕ) × ((recover_in_flight w limit s).0 ≡ ok n)
        × (n ≤ limit)
        × Added n s.db (recover_in_flight w limit s).1.db
  unfolding recover_in_flight
  recover_law = recover_into-Added w.outbox
