-- ===== src/Submitter/Once.antt =====
-- The transaction and the unique keys of infra/persistence/task_submitter.py.
use meta_agent.Common.{
  ℕ, String, ◌≡◌, sym, ◌⊎◌, inl, inr, true, Option, none, some, List, [], ◌∷◌, ◌++◌, arith, eq_refl,
}
use meta_agent.Exec.{catch}
use meta_agent.Errors.{Result, ok, err, unique_violation, Result-cases}
use meta_agent.Context.{RequestContext, check_tenant}
use meta_agent.Task.{Task}
use meta_agent.TaskRepo.{upsert}
use meta_agent.TaskRepo.Rows.{Tasks}
use meta_agent.Db.{Db, OutboxEvent, enqueue_event, has_event, transaction}
use meta_agent.Submitter.{
  FollowUpSpec, child_task, child_event, submit_block, submit_follow_up, duplicate,
}

has_event-append :
    (tenant_id key : String) (e : OutboxEvent) (es : List OutboxEvent)
    → e.tenant_id ≡ tenant_id
    → e.idempotency_key ≡ key
    → has_event tenant_id key (es ++ e ∷ []) ≡ true
unfolding has_event
has_event-append t k e [] h h' = rw (h, h', eq_refl t, eq_refl k)
has_event-append t k e (f ∷ es) h h' = ground (arith, has_event-append t k e es h h')

module _ (m : Db → Result (Option Task) × Db) (db : Db) where
  -- the transaction and its `except` clause, by what the block answers
  settled-refused :
      (m db).0 ≡ err unique_violation → catch (transaction m) duplicate db ≡ (ok none, db)
  settled-refused h = ground arith

  settled-ok :
      (t : Task)
      → (catch (transaction m) duplicate db).0 ≡ ok (some t)
      → ((m db).0 ≡ ok (some t)) × ((catch (transaction m) duplicate db).1 ≡ (m db).1)
  settled-ok t h = (ground arith, ground arith)

  settled-eq :
      (t : Option Task) (child : Task) (d : Db)
      → (m db).0 ≡ ok t
      → t ≡ some child
      → (m db).1 ≡ d
      → catch (transaction m) duplicate db ≡ (ok (some child), d)
  settled-eq t child d h made after = rw (h, made, after)

  settled-atomic :
      ((t : Option Task) × ((m db).0 ≡ ok t)) ⊎ ((catch (transaction m) duplicate db).1 ≡ db)
  settled-atomic = elim (Result-cases (m db).0) [
    | inl (e, raised) ↦ inr (ground arith)
    | inr (t, wrote) ↦ inl (t, wrote)
  ]

module _ (bound : Option RequestContext) where
  upsert-cases :
      (task : Task) (rows : Tasks)
      → check_tenant bound task.tenant_id ≡ ok tt
      → ((upsert bound task rows).0 ≡ ok tt) ⊎ ((upsert bound task rows).0 ≡ err unique_violation)
  unfolding upsert
  upsert-cases task rows chk = rw chk (ground arith)

  upsert-checks :
      (task : Task) (rows : Tasks)
      → (upsert bound task rows).0 ≡ ok tt
      → check_tenant bound task.tenant_id ≡ ok tt
  unfolding upsert
  upsert-checks task rows h = ground arith

  -- an event whose key is taken is refused, and the whole block with it
  block-refused :
      (task : Task) (event : OutboxEvent) (db : Db)
      → check_tenant bound task.tenant_id ≡ ok tt
      → check_tenant bound event.tenant_id ≡ ok tt
      → has_event event.tenant_id event.idempotency_key db.outbox ≡ true
      → (submit_block bound task event db).0 ≡ err unique_violation
  unfolding submit_block enqueue_event
  block-refused task event db chk same taken = elim (upsert-cases task db.tasks chk) [
    | inl wrote ↦ ground arith
    | inr clash ↦ ground arith
  ]

  block-writes :
      (task : Task) (event : OutboxEvent) (db : Db) (t : Option Task)
      → (submit_block bound task event db).0 ≡ ok t
      → (t ≡ some task)
        × ((upsert bound task db.tasks).0 ≡ ok tt)
        × ((submit_block bound task event db).1 ≡ record db {
          tasks = (upsert bound task db.tasks).1;
          outbox = db.outbox ++ event ∷ [];
        })
  unfolding submit_block enqueue_event
  block-writes task event db t h = (ground arith, ground arith, ground arith)

  module _ (parent : Task) (follow_up : FollowUpSpec) (now : ℕ) (child_id event_id : String) where
    abbrev block : Db → Result (Option Task) × Db
    block db =
        submit_block bound (child_task parent follow_up now child_id)
          (child_event parent follow_up now child_id event_id) db

    -- A submission either answers the child, with the child's row upserted and the child's event at
    -- the end of the outbox, or it leaves the three tables as they were.
    pub submit-atomic :
        (db : Db)
        → let child = child_task parent follow_up now child_id in
          let event = child_event parent follow_up now child_id event_id in
          (submit_follow_up bound parent follow_up now child_id event_id db ≡ (
            ok (some child),
            record db { tasks = (upsert bound child db.tasks).1; outbox = db.outbox ++ event ∷ [] },
          ))
          ⊎ ((submit_follow_up bound parent follow_up now child_id event_id db).1 ≡ db)
    unfolding submit_follow_up
    submit-atomic db = elim (settled-atomic block db) [
      | inr same ↦ inr same
      | inl (t, wrote) ↦
          let child = child_task parent follow_up now child_id in
          let event = child_event parent follow_up now child_id event_id in
          let (same, moved, after) = block-writes child event db t wrote in
          inl (settled-eq block db t child _ wrote same after)
    ]

module _ (bound : Option RequestContext) (parent parent' : Task) (follow_up spec' : FollowUpSpec)
    (now now' : ℕ) (child_id event_id child' event' : String) where
  -- After a submission that answered a child, every submission for a parent of the same tenant with
  -- the same idempotency key, whatever else it brings, answers that there is nothing to do and
  -- leaves the three tables as they are.
  pub submit_once :
      (db : Db) (t : Task)
      → parent'.tenant_id ≡ parent.tenant_id
      → spec'.idempotency_key ≡ follow_up.idempotency_key
      → (submit_follow_up bound parent follow_up now child_id event_id db).0 ≡ ok (some t)
      → let after = (submit_follow_up bound parent follow_up now child_id event_id db).1 in
        submit_follow_up bound parent' spec' now' child' event' after ≡ (ok none, after)
  unfolding submit_follow_up
  submit_once db t tenant key h =
      let child = child_task parent follow_up now child_id in
      let event = child_event parent follow_up now child_id event_id in
      let (wrote, same) = settled-ok (submit_block bound child event) db t h in
      let (made, moved, after) = block-writes bound child event db (some t) wrote in
      let chk = upsert-checks bound child db.tasks moved in
      rw (same, after)
        (settled-refused
          (submit_block bound (child_task parent' spec' now' child')
            (child_event parent' spec' now' child' event'))
          _
          (block-refused bound (child_task parent' spec' now' child')
            (child_event parent' spec' now' child' event') _ (rw tenant chk) (rw tenant chk)
            (has_event-append _ _ event db.outbox (sym tenant) (sym key))))
