-- ===== src/Approval/Writes.antt =====
-- What infra/persistence/approval_gateway.py has written to its three tables when it returns.
use meta_agent.Common.{
  ℕ, ◌+◌, String, ◌≡◌, refl, ap, inl, inr, true, false, Option, none, some, [], ◌∷◌, ◌++◌, arith,
  Bool-cases,
}
use meta_agent.Errors.{ok}
use meta_agent.Context.{RequestContext}
use meta_agent.Dict.{get, get-put}
use meta_agent.Value.{Value, str}
use meta_agent.Format.{◌+++◌, decimal}
use meta_agent.RunState.{TaskRunState}
use meta_agent.Gates.{human_decision_key, human_feedback_key}
use meta_agent.Task.{Task, TaskState, is_awaiting}
use meta_agent.TaskRepo.{stamp, where_awaiting}
use meta_agent.TaskRepo.Rows.{Row, at_key, find_row, find_row-holds, find_row-first}
use meta_agent.TaskRepo.Guards.{guarded-ok, transition-checks, transition-eq}
use meta_agent.Db.{Db, TaskCheckpoint, OutboxEvent, OutboxStatus, latest_of}
use meta_agent.Approval.{merge_decision, resumed, resume_event, resolve}
use meta_agent.Approval.Atomic.{resolve-tables, not_paused}

-- what a state says under the feedback's key after a decision
abbrev pub feedback_after : Option String → Option Value → Option Value
feedback_after none before = before
feedback_after (some text) before = some (str text)

merge-fields :
    (s : TaskRunState) (decision : String) (feedback : Option String) (n : ℕ)
    → let t = merge_decision s decision feedback n in
      (t.sequence ≡ n)
      × (t.current_node ≡ s.current_node)
      × (t.finished ≡ s.finished)
      × (t.awaiting_approval ≡ false)
      × (get t.data_ human_decision_key ≡ some (str decision))
      × (get t.data_ human_feedback_key ≡ feedback_after feedback (get s.data_ human_feedback_key))
unfolding merge_decision
merge-fields s decision none n = (refl, refl, refl, refl, simp get-put, simp get-put)
merge-fields s decision (some text) n = (refl, refl, refl, refl, simp get-put, simp get-put)

-- the checkpoint `k` goes on from `c` with a decision
abbrev pub Continues :
    String → String → String → Option String → ℕ → TaskCheckpoint → TaskCheckpoint → Type 0
Continues tenant_id task_id decision feedback now c k =
    (k.tenant_id ≡ tenant_id)
    × (k.task_id ≡ task_id)
    × (k.trace_id ≡ c.trace_id)
    × (k.node_name ≡ c.node_name)
    × (k.sequence ≡ c.sequence + 1)
    × (k.created_at ≡ now)
    × (k.state_snapshot.sequence ≡ k.sequence)
    × (k.state_snapshot.current_node ≡ c.state_snapshot.current_node)
    × (k.state_snapshot.finished ≡ c.state_snapshot.finished)
    × (k.state_snapshot.awaiting_approval ≡ false)
    × (get k.state_snapshot.data_ human_decision_key ≡ some (str decision))
    × (get k.state_snapshot.data_ human_feedback_key
        ≡ feedback_after feedback (get c.state_snapshot.data_ human_feedback_key))

-- the event `e` puts the task of a row on the queue, for the checkpoint behind `c`
abbrev pub Requeues : String → String → String → ℕ → Task → TaskCheckpoint → OutboxEvent → Type 0
Requeues topic tenant_id task_id now task c e =
    (e.tenant_id ≡ tenant_id)
    × (e.aggregate_type ≡ "task")
    × (e.aggregate_id ≡ task_id)
    × (e.topic ≡ topic)
    × (e.trace_id ≡ task.trace_id)
    × (e.payload ≡ task.input_payload)
    × (e.idempotency_key ≡ "resume:" +++ task_id +++ ":" +++ decimal (c.sequence + 1))
    × (e.status ≡ OutboxStatus.pending)
    × (e.created_at ≡ now)
    × (e.next_attempt_at ≡ some now)

-- the row `q` is `r` in another state
abbrev pub Moves : TaskState → ℕ → Row → Row → Type 0
Moves s now r q =
    (r.task.state ≡ TaskState.awaiting_approval)
    × (q.task.state ≡ s)
    × (q.task.updated_at ≡ now)
    × (q.task.task_id ≡ r.task.task_id)
    × (q.task.input_payload ≡ r.task.input_payload)
    × (q.result ≡ r.result)

awaiting-state : (s : TaskState) → is_awaiting s ≡ true → s ≡ TaskState.awaiting_approval
awaiting-state TaskState.awaiting_approval h = refl
awaiting-state _ h = absurd (cc h)

module _ (bound : Option RequestContext) (topic checkpoint_id event_id : String) (now : ℕ)
    (tenant_id task_id decision : String) (feedback : Option String) where
  resumed-Continues :
      (c : TaskCheckpoint)
      → Continues tenant_id task_id decision feedback now c
          (resumed bound topic checkpoint_id event_id now tenant_id task_id decision feedback c)
  unfolding resumed
  resumed-Continues c =
      let (number, node, finished, awake, decided, said) =
        merge-fields c.state_snapshot decision feedback (c.sequence + 1) in
      (refl, refl, refl, refl, refl, refl, number, node, finished, awake, decided, said)

  event-Requeues :
      (task : Task) (c : TaskCheckpoint)
      → Requeues topic tenant_id task_id now task c
          (resume_event bound topic checkpoint_id event_id now tenant_id task_id task c)
  unfolding resume_event
  event-Requeues task c = (refl, refl, refl, refl, refl, refl, refl, refl, refl, refl)

  -- An approval or rejection that returns has found the task in AWAITING_APPROVAL and a checkpoint
  -- of it, and has written all three tables: the task's row is in the target state, with the payload
  -- and the result that it had; one checkpoint was added, which goes on from the latest one at the
  -- same node, with the next sequence number, not waiting any more, and with the decision and the
  -- feedback if there is one in its data; and one pending event was added, which puts this task with
  -- its payload on the topic, under a key made of the task and the new sequence number.
  pub resolve-writes :
      (s : TaskState) (db : Db) (t : Task)
      → (resolve bound topic checkpoint_id event_id now tenant_id task_id decision feedback s db).0
        ≡ ok t
      → let db' =
          (resolve bound topic checkpoint_id event_id now tenant_id task_id decision feedback s
            db).1 in
        (r : Row) × (q : Row) × (c : TaskCheckpoint) × (k : TaskCheckpoint) × (e : OutboxEvent)
        × (find_row (at_key tenant_id task_id) db.tasks ≡ some r)
        × (find_row (at_key tenant_id task_id) db'.tasks ≡ some q)
        × Moves s now r q
        × (latest_of tenant_id task_id db.checkpoints ≡ some c)
        × (db'.checkpoints ≡ db.checkpoints ++ k ∷ [])
        × Continues tenant_id task_id decision feedback now c k
        × (db'.outbox ≡ db.outbox ++ e ∷ [])
        × Requeues topic tenant_id task_id now r.task c e
  resolve-writes s db t h =
      let (r, c, found, at_c, moved, tasks, checkpoints, outbox) =
        resolve-tables bound topic checkpoint_id event_id now tenant_id task_id decision feedback s
          db t h in
      let chk = transition-checks bound tenant_id task_id s now db.tasks moved in
      let eq = transition-eq bound tenant_id task_id s now db.tasks chk in
      let (hit, changed) =
        guarded-ok (where_awaiting tenant_id task_id) (stamp s now) db.tasks (rw eq at moved) in
      elim (Bool-cases (is_awaiting r.task.state)) [
        | inr off ↦
            let refused =
              not_paused bound topic checkpoint_id event_id now tenant_id task_id decision feedback
                s db r chk found off in
            absurd (cc (ap (λ x. x.0) refused, h))
        | inl on ↦
            let key = find_row-holds (at_key tenant_id task_id) db.tasks r found in
            let seen =
              find_row-first (where_awaiting tenant_id task_id) (at_key tenant_id task_id)
                (stamp s now) db.tasks r (λ x k. ground arith) (λ x. refl) (rw (key, on) refl)
                found in
            (
              r,
              stamp s now r,
              c,
              resumed bound topic checkpoint_id event_id now tenant_id task_id decision feedback c,
              resume_event bound topic checkpoint_id event_id now tenant_id task_id r.task c,
              found,
              rw (tasks, eq, changed) seen,
              (awaiting-state r.task.state on, refl, refl, refl, refl, refl),
              at_c,
              checkpoints,
              resumed-Continues c,
              outbox,
              event-Requeues r.task c,
            )
      ]
