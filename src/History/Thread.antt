-- ===== src/History/Thread.antt =====
-- The threads of core/orchestration/session_history.py: bounds, and what is in them.
use meta_agent.Common.{
  ℕ, zero, suc, ◌+◌, ◌*◌, ◌≤◌, String, ◌≡◌, refl, ap, Bool, true, false, Option, List, [], ◌∷◌,
  arith, length, take, length-take, map, Bool-cases, eq_iff, All, inl, inr, if◌then◌else◌, ◌==◌,
  select, ◌&&◌, ltb, eqb,
}
use meta_agent.Errors.{ok}
use meta_agent.Context.{RequestContext, check_tenant}
use meta_agent.Task.{Task}
use meta_agent.TaskRepo.{get_result, list_by_session, result_of, in_session}
use meta_agent.TaskRepo.Rows.{Tasks, at_key, find_row, Row, order_by, insert_sorted}
use meta_agent.History.{
  Message, is_skipped, user_prompt_of, message_of, assistant_message_of, thread,
  build_prior_messages,
}
use meta_agent.History.Turns.{
  turn, turns, Reads, has_task, alternates, length-messages_of, alternate-messages_of,
  message_of-ne, user_prompt_of-ne,
}

module _ {κ} (P : Row → Type κ) where
  insert_sorted-All :
      (key : Row → ℕ) (r : Row) (rows : Tasks) → P r → All P rows → All P (insert_sorted key r rows)
  unfolding insert_sorted
  insert_sorted-All key r [] h hs = (h, hs)
  insert_sorted-All key r (s ∷ rows) h (hd, hs) = elim (Bool-cases (ltb (key s) (key r))) [
    | inl below ↦ rw below (hd, insert_sorted-All key r rows h hs)
    | inr above ↦ rw above (h, (hd, hs))
  ]

  order_by-All : (key : Row → ℕ) (rows : Tasks) → All P rows → All P (order_by key rows)
  unfolding order_by
  order_by-All key [] hs = hs
  order_by-All key (r ∷ rows) (h, hs) =
      insert_sorted-All key r (order_by key rows) h (order_by-All key rows hs)

  take-All : (n : ℕ) (rows : Tasks) → All P rows → All P (take n rows)
  take-All zero rows hs = tt
  take-All (suc n) [] hs = hs
  take-All (suc n) (r ∷ rows) (h, hs) = (h, take-All n rows hs)

  select-All :
      (p : Row → Bool) (rows : Tasks) → ((r : Row) → p r ≡ true → P r) → All P (select p rows)
  select-All p [] f = tt
  select-All p (r ∷ rows) f = elim (Bool-cases (p r)) [
    | inl hit ↦ rw hit (f r hit, select-All p rows f)
    | inr miss ↦ rw miss (select-All p rows f)
  ]

Reads-map :
    (bound : Option RequestContext) (tenant_id : String) (rows : Tasks)
    → check_tenant bound tenant_id ≡ ok tt
    → All (λ r. r.task.tenant_id ≡ tenant_id) rows
    → Reads bound (map (λ r. r.task) rows)
Reads-map bound t [] chk hs = tt
Reads-map bound t (r ∷ rows) chk (h, hs) = (rw h chk, Reads-map bound t rows chk hs)

-- the tasks that `list_by_session` answers
abbrev pub listed : String → String → ℕ → Tasks → List Task
listed tenant_id session_id limit rows =
    map (λ r. r.task)
      (take limit (
        order_by (λ r. r.task.created_at)
          (select (λ r. r.task.tenant_id == tenant_id && in_session session_id r.task.session_id)
            rows)))

Reads-listed :
    (bound : Option RequestContext) (tenant_id session_id : String) (limit : ℕ) (rows : Tasks)
    → check_tenant bound tenant_id ≡ ok tt
    → Reads bound (listed tenant_id session_id limit rows)
Reads-listed bound t s limit rows chk =
    let p = λ (r : Row). r.task.tenant_id == t && in_session s r.task.session_id in
    let own = λ (r : Row). r.task.tenant_id ≡ t in
    Reads-map bound t _ chk (
      take-All own limit (order_by (λ r. r.task.created_at) (select p rows)) (
        order_by-All own (λ r. r.task.created_at) (select p rows)
          (select-All own p rows (λ r h. ground (arith, h, eq_iff r.task.tenant_id t)))))

module _ (bound : Option RequestContext) (rows : Tasks) (excluded : String) where
  thread-turns :
      (ts : List Task)
      → Reads bound ts
      → thread bound excluded ts rows ≡ (ok (turns rows excluded ts), rows)
  unfolding thread turns get_result assistant_message_of
  thread-turns [] h = refl
  thread-turns (t ∷ ts) (h, hs) = elim (Bool-cases (is_skipped excluded t)) [
    | inl skipped ↦ rw skipped (thread-turns ts hs)
    | inr kept ↦ rw kept (rw h (rw (thread-turns ts hs) refl))
  ]

  length-turn :
      (t : Task) (rest : List Message) → length (turn rows excluded t rest) ≤ 2 + length rest
  length-turn t rest =
      length-messages_of (user_prompt_of t)
        (message_of (result_of (find_row (at_key t.tenant_id t.task_id) rows))) rest
        (is_skipped excluded t)

  length-turns : (ts : List Task) → length (turns rows excluded ts) ≤ 2 * length ts
  unfolding turns
  length-turns [] = omega arith
  length-turns (t ∷ ts) = omega (arith, length-turns ts, length-turn t (turns rows excluded ts))

  -- the task that is left out adds nothing
  length-turns_excluded :
      (ts : List Task)
      → has_task excluded ts ≡ true
      → 2 + length (turns rows excluded ts) ≤ 2 * length ts
  unfolding turns has_task
  length-turns_excluded [] h = absurd (cc h)
  length-turns_excluded (t ∷ ts) h = elim (Bool-cases (t.task_id == excluded)) [
    | inl hit ↦ rw hit (omega (arith, length-turns ts))
    | inr miss ↦
        let ih = length-turns_excluded ts (rw miss at h) in
        omega (arith, ih, length-turn t (turns rows excluded ts))
  ]

  turns-alternate : (ts : List Task) → alternates (turns rows excluded ts) ≡ true
  unfolding turns alternates
  turns-alternate [] = refl
  turns-alternate (t ∷ ts) =
      alternate-messages_of (user_prompt_of t)
        (message_of (result_of (find_row (at_key t.tenant_id t.task_id) rows)))
        (turns rows excluded ts) (is_skipped excluded t) (user_prompt_of-ne t) (message_of-ne _)
        (turns-alternate ts)

length-map : (rows : Tasks) → length (map (λ (r : Row). r.task) rows) ≡ length rows
length-map [] = refl
length-map (r ∷ rows) = ap suc (length-map rows)

length-listed :
    (tenant_id session_id : String) (limit : ℕ) (rows : Tasks)
    → length (listed tenant_id session_id limit rows) ≤ limit
length-listed t s limit rows =
    rw
      (length-map (
        take limit (
          order_by (λ r. r.task.created_at)
            (select (λ r. r.task.tenant_id == t && in_session s r.task.session_id) rows))))
      (length-take limit _)

ge→ne : (n : ℕ) → 1 ≤ n → eqb n 0 ≡ false
ge→ne n h = ground arith

turns-le :
    (bound : Option RequestContext) (rows : Tasks) (excluded : String) (limit : ℕ) (ts : List Task)
    → length ts ≤ limit + 1
    → length (turns rows excluded ts) ≤ 2 * (if has_task excluded ts then limit else limit + 1)
turns-le bound rows excluded limit ts h = elim (Bool-cases (has_task excluded ts)) [
  | inl there ↦ rw there (omega (arith, h, length-turns_excluded bound rows excluded ts there))
  | inr absent ↦ rw absent (omega (arith, h, length-turns bound rows excluded ts))
]

-- With a limit of at least one and under the tenant's context, the history of a session is the turns
-- of its tasks that the query lists, in their order and read off the table; users and assistants
-- alternate with texts that are not empty, and there are at most `limit` turns if the task that is
-- left out is among those listed, and else at most one more.
pub history_law :
    (bound : Option RequestContext) (tenant_id session_id excluded : String) (limit : ℕ)
    (rows : Tasks)
    → 1 ≤ limit
    → check_tenant bound tenant_id ≡ ok tt
    → let tasks = listed tenant_id session_id (limit + 1) rows in
      (build_prior_messages bound tenant_id session_id excluded limit rows
        ≡ (ok (turns rows excluded tasks), rows))
      × (alternates (turns rows excluded tasks) ≡ true)
      × (length (turns rows excluded tasks)
          ≤ 2 * (if has_task excluded tasks then limit else limit + 1))
unfolding build_prior_messages list_by_session
history_law bound t s excluded limit rows positive chk =
    let tasks = listed t s (limit + 1) rows in
    (
      rw (ge→ne limit positive, chk)
          (thread-turns bound rows excluded tasks (Reads-listed bound t s (limit + 1) rows chk)),
      turns-alternate bound rows excluded tasks,
      turns-le bound rows excluded limit tasks (length-listed t s (limit + 1) rows),
    )
