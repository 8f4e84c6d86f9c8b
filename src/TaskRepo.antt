-- ===== src/TaskRepo.antt =====
-- infra/persistence/task_repo.py: the table `tasks`, and each statement of PgTaskRepository.
-- A statement is atomic; `status.endswith(" 0")` is a count of 0 updated rows. The bound request
-- context is the first argument. `ORDER BY` keeps the insertion order of rows with equal keys.
pub mod Rows
pub mod Guards
pub mod Ended
pub mod Isolation
use meta_agent.Common.{
  ℕ, zero, suc, String, Bool, true, false, not, ◌&&◌, Option, none, some, List, [], ◌∷◌, ◌==◌, eqb,
  ltb, leb, if◌then◌else◌, take, select, map, ◌++◌,
}
use meta_agent.Errors.{Result, ok, err, illegal_transition, unique_violation}
use meta_agent.Exec.{Exec, pure, raise, lift, ◌>>=◌, ◌>>◌}
use meta_agent.Context.{RequestContext, check_tenant}
use meta_agent.Task.{
  Task, TaskResult, TaskState, running, awaiting_approval, is_terminal, is_running, is_awaiting,
}
use Rows.{Row, Tasks, at_key, update_where, count_where, find_row, order_by}

abbrev pub stamp : TaskState → ℕ → Row → Row
stamp s now r = record r { task = record r.task { state = s; updated_at = now } }

-- the columns that `complete` writes
abbrev pub finish : TaskResult → TaskState → ℕ → Row → Row
finish result s now r = record (stamp s now r) { result = some result }

-- _SET_AWAITING_APPROVAL, _TRANSITION_FROM_AWAITING, _COMPLETE: the WHERE clauses
abbrev pub where_running : String → String → Row → Bool
where_running tenant_id task_id r = at_key tenant_id task_id r && is_running r.task.state

abbrev pub where_awaiting : String → String → Row → Bool
where_awaiting tenant_id task_id r = at_key tenant_id task_id r && is_awaiting r.task.state

abbrev pub where_open : String → String → Row → Bool
where_open tenant_id task_id r = at_key tenant_id task_id r && not (is_terminal r.task.state)

-- UPDATE … WHERE p; a count of 0 raises IllegalTaskTransitionError
unfoldable pub guarded_update : (Row → Bool) → (Row → Row) → Exec Tasks (Unit {0})
guarded_update p f rows =
    if eqb (count_where p rows) 0
    then (err illegal_transition, rows)
    else (ok tt, update_where p f rows)

-- the partial unique index `uq_tasks_tenant_idem`
abbrev same_idempotency_key : Option String → Option String → Bool
same_idempotency_key (some k) (some j) = k == j
same_idempotency_key _ _ = false

abbrev clashes : Task → Row → Bool
clashes t r =
    r.task.tenant_id == t.tenant_id && same_idempotency_key r.task.idempotency_key t.idempotency_key

abbrev pub with_id : String → Row → Bool
with_id task_id r = r.task.task_id == task_id

-- ON CONFLICT (task_id) DO UPDATE SET …: the columns that are taken from the new task
abbrev pub merge : Task → Row → Row
merge t r = record r {
  task = record r.task {
    session_id = t.session_id;
    graph_id = t.graph_id;
    state = t.state;
    permission_mode = t.permission_mode;
    budget_policy = t.budget_policy;
    budget_threshold_micros = t.budget_threshold_micros;
    input_payload = t.input_payload;
    updated_at = t.updated_at;
  };
}

-- `_row_to_task(row) if row else None`
abbrev pub task_of : Option Row → Option Task
task_of none = none
task_of (some r) = some r.task

-- `row["result_json"]`, `None` without a row
abbrev pub result_of : Option Row → Option TaskResult
result_of none = none
result_of (some r) = r.result

-- session_id = $2
abbrev pub in_session : String → Option String → Bool
in_session session_id none = false
in_session session_id (some s) = s == session_id

module _ (bound : Option RequestContext) where
  -- upsert_in_conn; `upsert` makes the same check once more before it
  unfoldable pub upsert : Task → Exec Tasks (Unit {0})
  upsert t = do
    lift (check_tenant bound t.tenant_id)
    λ rows.
        if eqb (count_where (with_id t.task_id) rows) 0
        then (if eqb (count_where (clashes t) rows) 0
            then (ok tt, rows ++ record { task = t; result = none } ∷ [])
            else (err unique_violation, rows))
        else (ok tt, update_where (with_id t.task_id) (merge t) rows)

  unfoldable pub get : String → String → Exec Tasks (Option Task)
  get tenant_id task_id = do
    lift (check_tenant bound tenant_id)
    λ rows. (ok (task_of (find_row (at_key tenant_id task_id) rows)), rows)

  unfoldable pub list_by_session : String → String → ℕ → Exec Tasks (List Task)
  list_by_session tenant_id session_id limit = do
    lift (check_tenant bound tenant_id)
    λ rows. (
      ok (
          map (λ r. r.task)
            (take limit (
              order_by (λ r. r.task.created_at)
                (select
                  (λ r. r.task.tenant_id == tenant_id && in_session session_id r.task.session_id)
                  rows)))),
      rows,
    )

  unfoldable pub update_state : String → String → TaskState → ℕ → Exec Tasks (Unit {0})
  update_state tenant_id task_id new_state updated_at = do
    lift (check_tenant bound tenant_id)
    λ rows. (ok tt, update_where (at_key tenant_id task_id) (stamp new_state updated_at) rows)

  unfoldable pub set_awaiting_approval : String → String → ℕ → Exec Tasks (Unit {0})
  set_awaiting_approval tenant_id task_id updated_at = do
    lift (check_tenant bound tenant_id)
    guarded_update (where_running tenant_id task_id) (stamp awaiting_approval updated_at)

  unfoldable pub transition_from_awaiting_approval :
      String → String → TaskState → ℕ → Exec Tasks (Unit {0})
  transition_from_awaiting_approval tenant_id task_id new_state updated_at = do
    lift (check_tenant bound tenant_id)
    guarded_update (where_awaiting tenant_id task_id) (stamp new_state updated_at)

  unfoldable pub complete : String → String → TaskResult → TaskState → ℕ → Exec Tasks (Unit {0})
  complete tenant_id task_id result terminal_state updated_at = do
    lift (check_tenant bound tenant_id)
    if is_terminal terminal_state
        then guarded_update (where_open tenant_id task_id) (finish result terminal_state updated_at)
        else raise illegal_transition

  unfoldable pub get_result : String → String → Exec Tasks (Option TaskResult)
  get_result tenant_id task_id = do
    lift (check_tenant bound tenant_id)
    λ rows. (ok (result_of (find_row (at_key tenant_id task_id) rows)), rows)

-- the cross-tenant scans, which make no tenant check
unfoldable pub list_running_for_resume : ℕ → Tasks → List Task
list_running_for_resume limit rows =
    map (λ r. r.task)
      (take limit (order_by (λ r. r.task.created_at) (select (λ r. is_running r.task.state) rows)))

unfoldable pub list_awaiting_approval_older_than : ℕ → ℕ → Tasks → List Task
list_awaiting_approval_older_than threshold_at limit rows =
    map (λ r. r.task)
      (take limit (
        order_by (λ r. r.task.updated_at)
          (select (λ r. is_awaiting r.task.state && ltb r.task.updated_at threshold_at) rows)))
