-- ===== src/Approval/Atomic.antt =====
-- An approval is all or nothing, and is given once.
use meta_agent.Common.{
  ℕ, String, ◌≡◌, refl, inl, inr, true, false, Option, some, [], ◌∷◌, ◌++◌, arith, Option-cases,
  is_some,
}
use meta_agent.Errors.{Error, ok, err, not_awaiting_approval}
use meta_agent.Context.{RequestContext, check_tenant}
use meta_agent.Task.{Task, TaskState, is_awaiting}
use meta_agent.TaskRepo
use meta_agent.TaskRepo.{stamp, where_awaiting}
use meta_agent.TaskRepo.Rows.{
  Row, Tasks, at_key, update_where, find_row, find_row-none, count_where-update_other,
  count_where-le,
}
use meta_agent.TaskRepo.Guards.{
  IsKeyed, guarded-find, at_key-le, guarded-ok, transition-checks, transition-eq,
}
use meta_agent.Db.{
  Db, TaskCheckpoint, OutboxEvent, append_checkpoint, latest_checkpoint, enqueue_event, latest_of,
}
use meta_agent.Approval.{resumed, resume_event, resume_block, resolve}

-- a row that a resolution changed is still found by its key
resolved-found :
    (bound : Option RequestContext) (tenant_id task_id : String) (s : TaskState) (now : ℕ)
    (rows : Tasks)
    → (TaskRepo.transition_from_awaiting_approval bound tenant_id task_id s now rows).0 ≡ ok tt
    → (r : Row) × (find_row
          (at_key tenant_id task_id)
          (TaskRepo.transition_from_awaiting_approval bound tenant_id task_id s now rows).1
        ≡ some r)
resolved-found bound t i s now rows h =
    let eq = transition-eq bound t i s now rows (transition-checks bound t i s now rows h) in
    let (hit, changed) = guarded-ok (where_awaiting t i) (stamp s now) rows (rw eq at h) in
    elim (Option-cases
      (find_row (at_key t i) (update_where (where_awaiting t i) (stamp s now) rows))) [
        | inr (r, found) ↦ (r, rw (eq, changed) found)
        | inl missing ↦ absurd (
            hit (
              omega (
                arith,
                find_row-none (at_key t i) (update_where (where_awaiting t i) (stamp s now) rows)
                    missing,
                count_where-update_other (where_awaiting t i) (at_key t i) (stamp s now) rows
                    (λ r. refl),
                count_where-le (where_awaiting t i) (at_key t i) rows (λ r k. ground arith),
              )))
      ]

module _ (bound : Option RequestContext) (topic checkpoint_id event_id : String) (now : ℕ) where
  block-checks :
      (tenant_id task_id : String) (s : TaskState) (c : TaskCheckpoint) (e : OutboxEvent) (db : Db)
      → (resume_block bound topic checkpoint_id event_id now tenant_id task_id s c e db).0 ≡ ok tt
      → let db' =
          (resume_block bound topic checkpoint_id event_id now tenant_id task_id s c e db).1 in
        ((TaskRepo.transition_from_awaiting_approval bound tenant_id task_id s now db.tasks).0
          ≡ ok tt)
        × (db'.tasks
            ≡ (TaskRepo.transition_from_awaiting_approval bound tenant_id task_id s now db.tasks).1)
        × (db'.checkpoints ≡ db.checkpoints ++ c ∷ [])
        × (db'.outbox ≡ db.outbox ++ e ∷ [])
  unfolding resume_block append_checkpoint enqueue_event
  block-checks t i s c e db h = (ground arith, ground arith, ground arith, ground arith)

  -- after the block the task is there to be read again
  block-found :
      (tenant_id task_id : String) (s : TaskState) (c : TaskCheckpoint) (e : OutboxEvent) (db : Db)
      → (resume_block bound topic checkpoint_id event_id now tenant_id task_id s c e db).0 ≡ ok tt
      → is_some (
          find_row
            (at_key tenant_id task_id)
            (resume_block bound topic checkpoint_id event_id now tenant_id task_id s c e
              db).1.tasks)
        ≡ true
  block-found t i s c e db h =
      let (moved, tasks, rest, rest') = block-checks t i s c e db h in
      let (r, found) = resolved-found bound t i s now db.tasks moved in rw (tasks, found)

  -- Whatever exception an approval or a rejection ends with, the three tables are as they were.
  pub resolve-atomic :
      (tenant_id task_id decision : String) (feedback : Option String) (s : TaskState) (db : Db)
      (e : Error)
      → (resolve bound topic checkpoint_id event_id now tenant_id task_id decision feedback s db).0
        ≡ err e
      → (resolve bound topic checkpoint_id event_id now tenant_id task_id decision feedback s db).1
        ≡ db
  unfolding TaskRepo.get latest_checkpoint
  resolve-atomic t i decision feedback s db e h =
      elim (Option-cases (find_row (at_key t i) db.tasks)) [
        | inl missing ↦ unfold resolve in ground arith
        | inr (r, found) ↦ elim (Option-cases (latest_of t i db.checkpoints)) [
          | inl no_checkpoint ↦ unfold resolve in ground arith
          | inr (c, at_c) ↦
              unfold resolve in
              ground (
                arith,
                block-found t i s
                    (resumed bound topic checkpoint_id event_id now t i decision feedback c)
                    (resume_event bound topic checkpoint_id event_id now t i r.task c) db,
              )
        ]
      ]

  -- the three tables behind an approval or rejection that returned, by the parts that made them
  pub resolve-tables :
      (tenant_id task_id decision : String) (feedback : Option String) (s : TaskState) (db : Db)
      (t : Task)
      → (resolve bound topic checkpoint_id event_id now tenant_id task_id decision feedback s db).0
        ≡ ok t
      → let db' =
          (resolve bound topic checkpoint_id event_id now tenant_id task_id decision feedback s
            db).1 in
        let moved =
          TaskRepo.transition_from_awaiting_approval bound tenant_id task_id s now db.tasks in
        (r : Row) × (c : TaskCheckpoint) × (find_row (at_key tenant_id task_id) db.tasks ≡ some r)
        × (latest_of tenant_id task_id db.checkpoints ≡ some c)
        × (moved.0 ≡ ok tt)
        × (db'.tasks ≡ moved.1)
        × (db'.checkpoints
            ≡ db.checkpoints
              ++ resumed bound topic checkpoint_id event_id now tenant_id task_id decision feedback
                  c
                ∷ [])
        × (db'.outbox
            ≡ db.outbox
              ++ resume_event bound topic checkpoint_id event_id now tenant_id task_id r.task c
                ∷ [])
  unfolding TaskRepo.get latest_checkpoint
  resolve-tables t i decision feedback s db task h =
      elim (Option-cases (find_row (at_key t i) db.tasks)) [
        | inl missing ↦ absurd (unfold resolve in ground arith)
        | inr (r, found) ↦ elim (Option-cases (latest_of t i db.checkpoints)) [
          | inl no_checkpoint ↦ absurd (unfold resolve in ground arith)
          | inr (c, at_c) ↦
              let c' = resumed bound topic checkpoint_id event_id now t i decision feedback c in
              let e = resume_event bound topic checkpoint_id event_id now t i r.task c in
              (
                r,
                c,
                found,
                at_c,
                unfold resolve in ground (arith, block-checks t i s c' e db),
                unfold resolve in ground (arith, block-checks t i s c' e db),
                unfold resolve in ground (arith, block-checks t i s c' e db),
                unfold resolve in ground (arith, block-checks t i s c' e db),
              )
        ]
      ]

pub not_paused :
    (bound : Option RequestContext) (topic cid eid : String) (now : ℕ)
    (tenant_id task_id decision : String) (feedback : Option String) (s : TaskState) (db : Db)
    (r : Row)
    → check_tenant bound tenant_id ≡ ok tt
    → find_row (at_key tenant_id task_id) db.tasks ≡ some r
    → is_awaiting r.task.state ≡ false
    → resolve bound topic cid eid now tenant_id task_id decision feedback s db
      ≡ (err not_awaiting_approval, db)
unfolding resolve TaskRepo.get
not_paused bound topic cid eid now t i d f s db r chk found off = ground arith

-- After an approval or rejection that returned, on a table whose key `task_id` is unique and with a
-- target state other than AWAITING_APPROVAL, no other one takes effect: with any decision, feedback,
-- ids, time and target state it is refused as not awaiting approval, and changes nothing.
pub resolve_once :
    (bound : Option RequestContext) (topic cid eid cid' eid' : String) (now now' : ℕ)
    (tenant_id task_id decision decision' : String) (feedback feedback' : Option String)
    (s s' : TaskState) (db : Db) (t : Task)
    → IsKeyed db.tasks
    → is_awaiting s ≡ false
    → (resolve bound topic cid eid now tenant_id task_id decision feedback s db).0 ≡ ok t
    → let db' = (resolve bound topic cid eid now tenant_id task_id decision feedback s db).1 in
      resolve bound topic cid' eid' now' tenant_id task_id decision' feedback' s' db'
      ≡ (err not_awaiting_approval, db')
resolve_once bound topic cid eid cid' eid' now now' t i d d' f f' s s' db task keyed left h =
    let (r, c, found, at_c, moved, tasks, rest, rest') =
      resolve-tables bound topic cid eid now t i d f s db task h in
    let chk = transition-checks bound t i s now db.tasks moved in
    let eq = transition-eq bound t i s now db.tasks chk in
    let (q, hit, before, after) =
      guarded-find (where_awaiting t i) (at_key t i) (stamp s now) db.tasks (λ x k. ground arith)
        (λ x. refl) (at_key-le t i db.tasks keyed) (rw eq at moved) in
    not_paused bound topic cid' eid' now' t i d' f' s' _ (stamp s now q) chk (rw (tasks, eq) after)
      left
