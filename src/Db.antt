-- ===== src/Db.antt =====
-- The tables that are written together: `tasks` (TaskRepo), `task_checkpoints`
-- (infra/persistence/checkpoint_repo.py) and `outbox_events` (infra/persistence/outbox_repo.py).
-- A checkpoint's snapshot is the run state that its JSON form reads back as.
use meta_agent.Common.{
  ℕ, String, Bool, false, ◌&&◌, ◌||◌, Option, none, some, [], List, ◌∷◌, ◌++◌, ◌==◌, eqb, ltb,
  if◌then◌else◌,
}
use meta_agent.Errors.{Result, ok, err, unique_violation}
use meta_agent.Exec.{lift, ◌>>◌}
use meta_agent.Context.{RequestContext, check_tenant}
use meta_agent.Dict.{Dict}
use meta_agent.Value.{Value}
use meta_agent.RunState.{TaskRunState}
use meta_agent.TaskRepo.Rows.{Tasks}

-- core/domain/checkpoint.py
pub record TaskCheckpoint : Type 0 where
  pub checkpoint_id : String
  pub task_id : String
  pub tenant_id : String
  pub trace_id : String
  pub node_name : String
  pub sequence : ℕ
  pub state_snapshot : TaskRunState
  pub created_at : ℕ

-- core/domain/outbox.py
pub data OutboxStatus : Type 0 where
  pending dispatched failed : OutboxStatus

-- an event, and the columns of its row that the event does not show
pub record OutboxEvent : Type 0 where
  pub event_id : String
  pub tenant_id : String
  pub trace_id : String
  pub aggregate_type : String
  pub aggregate_id : String
  pub topic : String
  pub payload : Dict Value
  pub idempotency_key : String
  pub status : OutboxStatus
  pub attempts : ℕ
  pub created_at : ℕ
  pub dispatched_at : Option ℕ
  pub next_attempt_at : Option ℕ
  pub last_error : Option String

pub record Db : Type 0 where
  pub tasks : Tasks
  pub checkpoints : List TaskCheckpoint
  pub outbox : List OutboxEvent

-- a statement on one table, as one on the database
abbrev pub on_tasks {ℓ} : {A : Type ℓ} → (Tasks → Result A × Tasks) → Db → Result A × Db
on_tasks m db = let (r, rows) = m db.tasks in (r, record db { tasks = rows })

-- the primary keys `checkpoint_id` and `event_id`
unfoldable pub has_checkpoint_id : String → List TaskCheckpoint → Bool
has_checkpoint_id id [] = false
has_checkpoint_id id (c ∷ cs) = c.checkpoint_id == id || has_checkpoint_id id cs

unfoldable pub has_event_id : String → List OutboxEvent → Bool
has_event_id id [] = false
has_event_id id (e ∷ es) = e.event_id == id || has_event_id id es

-- uq_checkpoints_task_sequence
unfoldable pub has_checkpoint : String → ℕ → List TaskCheckpoint → Bool
has_checkpoint task_id sequence [] = false
has_checkpoint task_id sequence (c ∷ cs) =
    c.task_id == task_id && eqb c.sequence sequence || has_checkpoint task_id sequence cs

-- uq_outbox_tenant_idem
unfoldable pub has_event : String → String → List OutboxEvent → Bool
has_event tenant_id key [] = false
has_event tenant_id key (e ∷ es) =
    e.tenant_id == tenant_id && e.idempotency_key == key || has_event tenant_id key es

-- ORDER BY sequence DESC LIMIT 1
abbrev later : TaskCheckpoint → Option TaskCheckpoint → Option TaskCheckpoint
later c none = some c
later c (some d) = if ltb c.sequence d.sequence then some d else some c

unfoldable pub latest_of : String → String → List TaskCheckpoint → Option TaskCheckpoint
latest_of tenant_id task_id [] = none
latest_of tenant_id task_id (c ∷ cs) =
    let rest = latest_of tenant_id task_id cs in
    if c.tenant_id == tenant_id && c.task_id == task_id then later c rest else rest

module _ (bound : Option RequestContext) where
  -- PgCheckpointRepository.append
  unfoldable pub append_checkpoint : TaskCheckpoint → Db → Result (Unit {0}) × Db
  append_checkpoint c = do
    lift (check_tenant bound c.tenant_id)
    λ db.
        if has_checkpoint_id c.checkpoint_id db.checkpoints
          || has_checkpoint c.task_id c.sequence db.checkpoints
        then (err unique_violation, db)
        else (ok tt, record db { checkpoints = db.checkpoints ++ c ∷ [] })

  -- PgCheckpointRepository.latest
  unfoldable pub latest_checkpoint : String → String → Db → Result (Option TaskCheckpoint) × Db
  latest_checkpoint tenant_id task_id = do
    lift (check_tenant bound tenant_id)
    λ db. (ok (latest_of tenant_id task_id db.checkpoints), db)

  -- PgOutboxRepository.enqueue
  unfoldable pub enqueue_event : OutboxEvent → Db → Result (Unit {0}) × Db
  enqueue_event e = do
    lift (check_tenant bound e.tenant_id)
    λ db.
        if has_event_id e.event_id db.outbox || has_event e.tenant_id e.idempotency_key db.outbox
        then (err unique_violation, db)
        else (ok tt, record db { outbox = db.outbox ++ e ∷ [] })

-- `async with pool.transaction()`: an exception rolls the whole block back
abbrev pub commit_or {ℓ} : {A : Type ℓ} → Db → Result A × Db → Result A × Db
commit_or before (ok a, after) = (ok a, after)
commit_or before (err e, after) = (err e, before)

abbrev pub transaction {ℓ} : {A : Type ℓ} → (Db → Result A × Db) → Db → Result A × Db
transaction m db = commit_or db (m db)
