-- ===== src/TaskRepo/Ended.antt =====
-- A task that has ended has no open row: the guard of `complete` in
-- infra/persistence/task_repo.py.
use meta_agent.Common.{
  ℕ, String, ◌≡◌, refl, ap, [], ◌∷◌, Bool, true, Option, some, ◌≤◌, arith, eq_iff, Bool-cases, inl,
  inr,
}
use meta_agent.Errors.{err, illegal_transition, ok}
use meta_agent.Context.{RequestContext, check_tenant}
use meta_agent.Task.{TaskState, TaskResult, is_terminal}
use meta_agent.TaskRepo.{where_open, complete, with_id}
use meta_agent.TaskRepo.Rows.{
  Row, Tasks, at_key, count_where, find_row, count_where-le, find_row-holds,
}
use meta_agent.TaskRepo.Guards.{IsKeyed, at_key-le, guarded-refused, complete-eq}

tail-le : (p : Row → Bool) (r : Row) (rows : Tasks) → count_where p rows ≤ count_where p (r ∷ rows)
unfolding count_where
tail-le p r rows = ground arith

-- with one row per task, a task that has ended has no open row
open-none :
    (tenant_id task_id : String) (rows : Tasks) (r : Row)
    → IsKeyed rows
    → find_row (at_key tenant_id task_id) rows ≡ some r
    → is_terminal r.task.state ≡ true
    → count_where (where_open tenant_id task_id) rows ≡ 0
unfolding count_where find_row
open-none t i [] r keyed found over = absurd (cc found)
open-none t i (q ∷ rows) r keyed found over = elim (Bool-cases (at_key t i q)) [
  | inl hit ↦
      let same : q ≡ r = cc (rw hit at found) in
      let rest : count_where (at_key t i) rows ≤ 0 =
        ground (arith, hit, at_key-le t i (q ∷ rows) keyed) in
      ground (
        arith,
        hit,
        ap (λ x. is_terminal x.task.state) same,
        over,
        rest,
        count_where-le (where_open t i) (at_key t i) rows (λ x h. ground arith),
      )
  | inr miss ↦
      let rest =
        open-none t i rows r (λ j. omega (arith, keyed j, tail-le (with_id j) q rows))
          (rw miss at found) over in
      ground (arith, miss, rest)
]

-- the write of a given-up message finds no open row
pub complete-refused :
    (bound : Option RequestContext) (tenant_id task_id : String) (result : TaskResult) (now : ℕ)
    (rows : Tasks) (r : Row)
    → check_tenant bound tenant_id ≡ ok tt
    → IsKeyed rows
    → find_row (at_key tenant_id task_id) rows ≡ some r
    → is_terminal r.task.state ≡ true
    → complete bound tenant_id task_id result TaskState.failed now rows
      ≡ (err illegal_transition, rows)
complete-refused bound t i result now rows r chk keyed found over =
    rw (complete-eq bound t i result TaskState.failed now rows chk refl)
      (guarded-refused (where_open t i) _ rows (open-none t i rows r keyed found over))

-- at its own key a row is found
pub own-key :
    (tenant_id task_id : String) (rows : Tasks) (r : Row)
    → find_row (at_key tenant_id task_id) rows ≡ some r
    → (r.task.tenant_id ≡ tenant_id) × (r.task.task_id ≡ task_id)
own-key t i rows r found =
    let holds = find_row-holds (at_key t i) rows r found in
    (
      ground (arith, holds, eq_iff r.task.tenant_id t, eq_iff r.task.task_id i),
      ground (arith, holds, eq_iff r.task.tenant_id t, eq_iff r.task.task_id i),
    )
