-- ===== src/TaskRepo/Isolation.antt =====
-- Tenant isolation of infra/persistence/task_repo.py: what a bound tenant can write.
use meta_agent.Common.{
  ℕ, String, ◌≡◌, refl, ◌≢◌, inl, inr, Bool, true, false, Option, some, [], ◌∷◌, ◌==◌, eq_iff,
  arith, Bool-cases, select, length, eqb,
}
use meta_agent.Errors.{ok}
use meta_agent.Context.{RequestContext, check_tenant}
use meta_agent.Task.{Task, TaskResult, TaskState, awaiting_approval, is_terminal}
use meta_agent.TaskRepo.Rows.{
  Row, Tasks, at_key, update_where, count_where, find_row, count_where-ne, find_row-holds,
  find_row-first, length-update,
}
use meta_agent.TaskRepo.{
  guarded_update, set_awaiting_approval, transition_from_awaiting_approval, complete, update_state,
  upsert, with_id, merge, stamp, where_running, where_awaiting, where_open, finish,
}
use meta_agent.Exec.{Exec, lift, continue, ◌>>=◌}

-- a write by key, as a caller may ask for it
pub data Write : Type 0 where
  pause : ℕ → Write
  resolve : TaskState → ℕ → Write
  finalise : TaskResult → TaskState → ℕ → Write
  move : TaskState → ℕ → Write

abbrev pub write : Option RequestContext → String → String → Write → Tasks → Tasks
write bound tenant_id task_id (pause now) rows =
    (set_awaiting_approval bound tenant_id task_id now rows).1
write bound tenant_id task_id (resolve s now) rows =
    (transition_from_awaiting_approval bound tenant_id task_id s now rows).1
write bound tenant_id task_id (finalise result s now) rows =
    (complete bound tenant_id task_id result s now rows).1
write bound tenant_id task_id (move s now) rows =
    (update_state bound tenant_id task_id s now rows).1

-- the rows of the other tenants
abbrev pub of_tenant : String → Row → Bool
of_tenant t r = r.task.tenant_id == t

select-update :
    (p q : Row → Bool) (f : Row → Row) (rows : Tasks)
    → ((r : Row) → p r ≡ true → q r ≡ false)
    → ((r : Row) → q (f r) ≡ q r)
    → select q (update_where p f rows) ≡ select q rows
unfolding update_where
select-update p q f [] apart keep = refl
select-update p q f (r ∷ rows) apart keep =
    ground (arith, select-update p q f rows apart keep, apart r, keep r)

select-guarded :
    (p q : Row → Bool) (f : Row → Row) (rows : Tasks)
    → ((r : Row) → p r ≡ true → q r ≡ false)
    → ((r : Row) → q (f r) ≡ q r)
    → select q (guarded_update p f rows).1 ≡ select q rows
unfolding guarded_update
select-guarded p q f rows apart keep = ground (arith, select-update p q f rows apart keep)

module _ (ctx : RequestContext) (t other : String) (ne : other ≢ ctx.tenant_id) (rows : Tasks) where
  -- the writes after a passed tenant check touch no row of `other`
  checked :
      (m : Exec Tasks (Unit {0}))
      → (ctx.tenant_id ≡ t → select (of_tenant other) (m rows).1 ≡ select (of_tenant other) rows)
      → select (of_tenant other) ((lift (check_tenant (some ctx) t) >>= λ _. m) rows).1
        ≡ select (of_tenant other) rows
  unfolding check_tenant
  checked m h = elim (Bool-cases (ctx.tenant_id == t)) [
    | inl same ↦ rw (same, continue) (h ((eq_iff ctx.tenant_id t).0 same))
    | inr differs ↦ rw (differs, continue)
  ]

  guarded_by_key :
      (i : String) (p : Row → Bool) (f : Row → Row)
      → ((r : Row) → p r ≡ true → at_key t i r ≡ true)
      → ((r : Row) → of_tenant other (f r) ≡ of_tenant other r)
      → ctx.tenant_id ≡ t
      → select (of_tenant other) (guarded_update p f rows).1 ≡ select (of_tenant other) rows
  guarded_by_key i p f sub keep e =
      select-guarded p (of_tenant other) f rows
        (λ r h. ground (arith, sub r h, eq_iff r.task.tenant_id t, eq_iff r.task.tenant_id other))
        keep

-- Whatever write by key is asked for, of whatever tenant and task: the rows of every tenant other
-- than the bound one stay as they are, in their order.
pub write_isolated :
    (ctx : RequestContext) (tenant_id task_id other : String) (w : Write) (rows : Tasks)
    → other ≢ ctx.tenant_id
    → select (of_tenant other) (write (some ctx) tenant_id task_id w rows)
      ≡ select (of_tenant other) rows
unfolding set_awaiting_approval transition_from_awaiting_approval complete update_state
write_isolated ctx t i other (pause now) rows ne = checked ctx t other ne rows _ (
    guarded_by_key ctx t other ne rows i (where_running t i) (stamp awaiting_approval now)
      (λ r h. ground arith) (λ r. refl))
write_isolated ctx t i other (resolve s now) rows ne = checked ctx t other ne rows _ (
    guarded_by_key ctx t other ne rows i (where_awaiting t i) (stamp s now) (λ r h. ground arith)
      (λ r. refl))
write_isolated ctx t i other (finalise result s now) rows ne = checked ctx t other ne rows _ (λ e.
    elim (Bool-cases (is_terminal s)) [
      | inl yes_terminal ↦ rw yes_terminal (
          guarded_by_key ctx t other ne rows i (where_open t i) (finish result s now)
            (λ r h. ground arith) (λ r. refl) e)
      | inr not_terminal ↦ rw not_terminal
    ])
write_isolated ctx t i other (move s now) rows ne = checked ctx t other ne rows _ (λ e.
    select-update (at_key t i) (of_tenant other) (stamp s now) rows
      (λ r h. ground (arith, eq_iff r.task.tenant_id t, eq_iff r.task.tenant_id other)) (λ r. refl))

find_row-counted :
    (p : Row → Bool) (rows : Tasks) (r : Row)
    → find_row p rows ≡ some r
    → eqb (count_where p rows) 0 ≡ false
find_row-counted p rows r found = ground (arith, count_where-ne p rows r found)

-- `upsert` looks only at `task_id`: under the context of the new task's tenant it succeeds where a row
-- with that id is there, and that row, of whatever tenant it is and stays, has the state and the
-- payload of the new task afterwards, the tenant and the result that it had, and no row was added.
pub upsert_crosses :
    (ctx : RequestContext) (t : Task) (rows : Tasks) (r : Row)
    → ctx.tenant_id ≡ t.tenant_id
    → find_row (with_id t.task_id) rows ≡ some r
    → ((upsert (some ctx) t rows).0 ≡ ok tt)
      × (length (upsert (some ctx) t rows).1 ≡ length rows)
      × ((q : Row) × (find_row (with_id t.task_id) (upsert (some ctx) t rows).1 ≡ some q)
          × (q.task.tenant_id ≡ r.task.tenant_id)
          × (q.task.state ≡ t.state)
          × (q.task.input_payload ≡ t.input_payload)
          × (q.result ≡ r.result))
unfolding upsert check_tenant
upsert_crosses ctx t rows r same found =
    let there = find_row-counted (with_id t.task_id) rows r found in
    let own : (ctx.tenant_id == t.tenant_id) ≡ true = (eq_iff ctx.tenant_id t.tenant_id).1 same in
    rw (own, there)
      (
        refl,
        length-update (with_id t.task_id) (merge t) rows,
        (
          merge t r,
          find_row-first (with_id t.task_id) (with_id t.task_id) (merge t) rows r (λ x h. h)
              (λ x. refl) (find_row-holds (with_id t.task_id) rows r found) found,
          refl,
          refl,
          refl,
          refl,
        ),
      )
