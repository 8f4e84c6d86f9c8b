-- ===== src/Examples/Approvals.antt =====
-- Examples for Approval.
use meta_agent.Common.{◌≡◌, refl, none, some, [], ◌∷◌, ◌++◌, arith}
use meta_agent.Errors.{Result, ok, err, not_awaiting_approval}
use meta_agent.Context.{check_tenant}
use meta_agent.Task.{Task, TaskState, running}
use meta_agent.TaskRepo
use meta_agent.TaskRepo.Rows.{Row, count_where, update_where, find_row, at_key}
use meta_agent.TaskRepo.Guards.{IsKeyed}
use meta_agent.Db.{
  Db, TaskCheckpoint, OutboxEvent, append_checkpoint, latest_checkpoint, enqueue_event,
  has_checkpoint, has_checkpoint_id, has_event, has_event_id, latest_of,
}
use meta_agent.Approval.{resolve, resume_block, resumed, resume_event}
use meta_agent.Approval.Atomic.{resolve-atomic, resolve_once}
use meta_agent.Approval.Writes.{Moves, Continues, Requeues, resolve-writes}
use meta_agent.Examples.Data.{tenant, task, row, paused_db, checkpoint}

one-IsKeyed : (r : Row) → IsKeyed (r ∷ [])
unfolding count_where
one-IsKeyed r i = ground arith

abbrev approval : Db → Result Task × Db
approval =
    resolve (some (tenant "acme")) "task.resume" "c2" "e1" 9 "acme" "t1" "approve" none running

approved : (t : Task) × ((approval paused_db).0 ≡ ok t)
unfolding resolve resume_block resumed resume_event TaskRepo.get
    TaskRepo.transition_from_awaiting_approval TaskRepo.guarded_update count_where update_where
    find_row append_checkpoint latest_checkpoint enqueue_event has_checkpoint has_checkpoint_id
    has_event has_event_id latest_of check_tenant
approved = (_, refl)

resolve_once_example :
    resolve
      (some (tenant "acme"))
      "task.resume"
      "c3"
      "e2"
      10
      "acme"
      "t1"
      "reject"
      (some "no")
      running
      (approval paused_db).1
    ≡ (err not_awaiting_approval, (approval paused_db).1)
resolve_once_example =
    resolve_once (some (tenant "acme")) "task.resume" "c2" "e1" "c3" "e2" 9 10 "acme" "t1" "approve"
      "reject" none (some "no") running running paused_db approved.0
      (one-IsKeyed (row "acme" "t1" TaskState.awaiting_approval)) refl approved.1

resolve-writes_example :
    let db' = (approval paused_db).1 in
    (r : Row) × (q : Row) × (c : TaskCheckpoint) × (k : TaskCheckpoint) × (e : OutboxEvent)
    × (find_row (at_key "acme" "t1") paused_db.tasks ≡ some r)
    × (find_row (at_key "acme" "t1") db'.tasks ≡ some q)
    × Moves running 9 r q
    × (latest_of "acme" "t1" paused_db.checkpoints ≡ some c)
    × (db'.checkpoints ≡ paused_db.checkpoints ++ k ∷ [])
    × Continues "acme" "t1" "approve" none 9 c k
    × (db'.outbox ≡ paused_db.outbox ++ e ∷ [])
    × Requeues "task.resume" "acme" "t1" 9 r.task c e
resolve-writes_example =
    resolve-writes (some (tenant "acme")) "task.resume" "c2" "e1" 9 "acme" "t1" "approve" none
      running paused_db approved.0 approved.1

-- the fresh event id is taken: the last statement of the transaction fails
abbrev crowded_db : Db
crowded_db = record paused_db {
  outbox =
      resume_event (some (tenant "acme")) "task.resume" "c0" "e1" 3 "acme" "t9"
        (task "acme" "t9" TaskState.awaiting_approval) checkpoint
      ∷ [];
}

collides : (approval crowded_db).0 ≡ err not_awaiting_approval
unfolding resolve resume_block resumed resume_event TaskRepo.get
    TaskRepo.transition_from_awaiting_approval TaskRepo.guarded_update count_where update_where
    find_row append_checkpoint latest_checkpoint enqueue_event has_checkpoint has_checkpoint_id
    has_event has_event_id latest_of check_tenant
collides = refl

resolve-atomic_example : (approval crowded_db).1 ≡ crowded_db
resolve-atomic_example =
    resolve-atomic (some (tenant "acme")) "task.resume" "c2" "e1" 9 "acme" "t1" "approve" none
      running crowded_db not_awaiting_approval collides
