-- ===== src/TaskRepo/Guards.antt =====
-- The guarded writes of infra/persistence/task_repo.py: a result is written once, and of two
-- racing resolutions of a paused task one wins.
use meta_agent.Common.{ℕ, String, ◌≡◌, refl, ◌≢◌, Bool, true, false, Option, some, ◌≤◌, arith}
use meta_agent.Errors.{ok, err, illegal_transition}
use meta_agent.Context.{RequestContext, check_tenant}
use meta_agent.Task.{TaskResult, TaskState, is_terminal, is_awaiting}
use meta_agent.TaskRepo.Rows.{
  Row, Tasks, at_key, update_where, count_where, find_row, count_where-update, count_where-le,
  find_row-update,
}
use meta_agent.TaskRepo.{
  stamp, where_awaiting, where_open, guarded_update, transition_from_awaiting_approval, complete,
  get_result, with_id, finish,
}

-- `task_id` is the primary key
abbrev pub IsKeyed : Tasks → Type 0
IsKeyed rows = (i : String) → count_where (with_id i) rows ≤ 1

pub guarded-ok :
    (p : Row → Bool) (f : Row → Row) (rows : Tasks)
    → (guarded_update p f rows).0 ≡ ok tt
    → (count_where p rows ≢ 0) × ((guarded_update p f rows).1 ≡ update_where p f rows)
unfolding guarded_update
guarded-ok p f rows h = (ground arith, ground arith)

pub guarded-refused :
    (p : Row → Bool) (f : Row → Row) (rows : Tasks)
    → count_where p rows ≡ 0
    → guarded_update p f rows ≡ (err illegal_transition, rows)
unfolding guarded_update
guarded-refused p f rows h = ground arith

-- A write that falsifies its own guard cannot be made twice.
guarded_twice :
    (p : Row → Bool) (f g : Row → Row) (rows : Tasks)
    → ((r : Row) → p r ≡ true → p (f r) ≡ false)
    → (guarded_update p f rows).0 ≡ ok tt
    → guarded_update p g (guarded_update p f rows).1
      ≡ (err illegal_transition, (guarded_update p f rows).1)
guarded_twice p f g rows off h =
    rw ((guarded-ok p f rows h).1)
      (guarded-refused p g (update_where p f rows) (count_where-update p f rows off))

-- The row that a guarded write changed is the row that its key finds.
pub guarded-find :
    (p q : Row → Bool) (f : Row → Row) (rows : Tasks)
    → ((r : Row) → p r ≡ true → q r ≡ true)
    → ((r : Row) → q (f r) ≡ q r)
    → count_where q rows ≤ 1
    → (guarded_update p f rows).0 ≡ ok tt
    → (r : Row) × (p r ≡ true)
      × (find_row q rows ≡ some r)
      × (find_row q (guarded_update p f rows).1 ≡ some (f r))
guarded-find p q f rows sub keep one h =
    let (hit, changed) = guarded-ok p f rows h in
    rw changed (find_row-update p q f rows sub keep one hit)

pub at_key-le :
    (tenant_id task_id : String) (rows : Tasks)
    → IsKeyed rows
    → count_where (at_key tenant_id task_id) rows ≤ 1
at_key-le t i rows keyed = omega (
  arith,
  keyed i,
  count_where-le (at_key t i) (with_id i) rows
      (λ (r : Row) (h : at_key t i r ≡ true). ground arith),
)

module _ (bound : Option RequestContext) (tenant_id task_id : String) where
  complete-checks :
      (result : TaskResult) (s : TaskState) (now : ℕ) (rows : Tasks)
      → (complete bound tenant_id task_id result s now rows).0 ≡ ok tt
      → (check_tenant bound tenant_id ≡ ok tt) × (is_terminal s ≡ true)
  unfolding complete
  complete-checks result s now rows h = (ground arith, ground arith)

  pub complete-eq :
      (result : TaskResult) (s : TaskState) (now : ℕ) (rows : Tasks)
      → check_tenant bound tenant_id ≡ ok tt
      → is_terminal s ≡ true
      → complete bound tenant_id task_id result s now rows
        ≡ guarded_update (where_open tenant_id task_id) (finish result s now) rows
  unfolding complete
  complete-eq result s now rows h t = rw (h, t)

  get_result-eq :
      (rows : Tasks) (r : Row) {result : TaskResult}
      → check_tenant bound tenant_id ≡ ok tt
      → find_row (at_key tenant_id task_id) rows ≡ some r
      → r.result ≡ some result
      → get_result bound tenant_id task_id rows ≡ (ok (some result), rows)
  unfolding get_result
  get_result-eq rows r chk found e = rw (chk, found, e)

  -- Once `complete` has returned, the task's result is the one that it was given, on a table whose
  -- key `task_id` is unique, and every later `complete` of the task, with any result and any
  -- terminal state, raises IllegalTaskTransitionError and changes nothing.
  pub complete_once :
      (result later : TaskResult) (s s' : TaskState) (now now' : ℕ) (rows : Tasks)
      → IsKeyed rows
      → is_terminal s' ≡ true
      → (complete bound tenant_id task_id result s now rows).0 ≡ ok tt
      → let after = (complete bound tenant_id task_id result s now rows).1 in
        (get_result bound tenant_id task_id after ≡ (ok (some result), after))
        × (complete bound tenant_id task_id later s' now' after ≡ (err illegal_transition, after))
  complete_once result later s s' now now' rows keyed last h =
      let (chk, term) = complete-checks result s now rows h in
      let eq = complete-eq result s now rows chk term in
      let go = rw eq at h in
      let (r, hit, found, changed) =
        guarded-find (where_open tenant_id task_id) (at_key tenant_id task_id) (finish result s now)
          rows (λ r h. ground arith) (λ r. refl) (at_key-le tenant_id task_id rows keyed) go in
      rw eq (
        get_result-eq _ (finish result s now r) chk changed refl,
        rw (complete-eq later s' now' _ chk last) (
            guarded_twice (where_open tenant_id task_id) (finish result s now)
              (finish later s' now') rows (λ r h. ground (arith, term)) go),
      )

  pub transition-checks :
      (s : TaskState) (now : ℕ) (rows : Tasks)
      → (transition_from_awaiting_approval bound tenant_id task_id s now rows).0 ≡ ok tt
      → check_tenant bound tenant_id ≡ ok tt
  unfolding transition_from_awaiting_approval
  transition-checks s now rows h = ground arith

  pub transition-eq :
      (s : TaskState) (now : ℕ) (rows : Tasks)
      → check_tenant bound tenant_id ≡ ok tt
      → transition_from_awaiting_approval bound tenant_id task_id s now rows
        ≡ guarded_update (where_awaiting tenant_id task_id) (stamp s now) rows
  unfolding transition_from_awaiting_approval
  transition-eq s now rows chk = rw chk

  -- Of the calls that race to take a task out of AWAITING_APPROVAL (approve, abort, expire), after
  -- the first that returns, with a target other than AWAITING_APPROVAL, every other one raises
  -- IllegalTaskTransitionError and changes nothing.
  pub transition_race :
      (s s' : TaskState) (now now' : ℕ) (rows : Tasks)
      → is_awaiting s ≡ false
      → (transition_from_awaiting_approval bound tenant_id task_id s now rows).0 ≡ ok tt
      → let after = (transition_from_awaiting_approval bound tenant_id task_id s now rows).1 in
        transition_from_awaiting_approval bound tenant_id task_id s' now' after
        ≡ (err illegal_transition, after)
  transition_race s s' now now' rows left h =
      let chk = transition-checks s now rows h in
      let eq = transition-eq s now rows chk in
      let go = rw eq at h in
      rw eq (
        rw (transition-eq s' now' _ chk) (
          guarded_twice (where_awaiting tenant_id task_id) (stamp s now) (stamp s' now') rows
            (λ r h. ground (arith, left)) go))
