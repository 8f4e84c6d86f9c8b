-- ===== src/TaskRepo/Rows.antt =====
-- The table `tasks` and its generic statements: `UPDATE … WHERE`, `SELECT … ORDER BY … LIMIT`.
use meta_agent.Common.{
  ℕ, suc, String, ◌≡◌, refl, ap, ◌∙◌, length, Bool, true, false, ◌&&◌, Option, none, some, List, [],
  ◌∷◌, ◌≤◌, ◌==◌, arith, ltb, if◌then◌else◌, ◌≢◌, Bool-cases, inl, inr,
}
use meta_agent.Task.{Task, TaskResult}

-- a row: the columns of the task, and `result_json`
pub record Row : Type 0 where
  pub task : Task
  pub result : Option TaskResult

abbrev pub Tasks : Type 0
Tasks = List Row

-- WHERE tenant_id = $1 AND task_id = $2
abbrev pub at_key : String → String → Row → Bool
at_key tenant_id task_id r = r.task.tenant_id == tenant_id && r.task.task_id == task_id

module _ (p : Row → Bool) where
  -- UPDATE tasks SET … WHERE p
  unfoldable pub update_where : (Row → Row) → Tasks → Tasks
  update_where f [] = []
  update_where f (r ∷ rows) = let rest = update_where f rows in if p r then f r ∷ rest else r ∷ rest

  -- the number of rows that a statement with this WHERE touches
  unfoldable pub count_where : Tasks → ℕ
  count_where [] = 0
  count_where (r ∷ rows) = let n = count_where rows in if p r then suc n else n

  -- the first row of a SELECT … WHERE p
  unfoldable pub find_row : Tasks → Option Row
  find_row [] = none
  find_row (r ∷ rows) = if p r then some r else find_row rows

  -- A statement that touches no row leaves the table as it is.
  pub update_where-none :
      (f : Row → Row) (rows : Tasks) → count_where rows ≡ 0 → update_where f rows ≡ rows
  unfolding update_where count_where
  update_where-none f [] h = refl
  update_where-none f (r ∷ rows) h = ground (arith, update_where-none f rows)

  -- A row is found exactly when the count is not 0.
  pub find_row-none : (rows : Tasks) → find_row rows ≡ none → count_where rows ≡ 0
  unfolding find_row count_where
  find_row-none [] h = refl
  find_row-none (r ∷ rows) h = ground (arith, find_row-none rows)

  pub count_where-ne : (rows : Tasks) (r : Row) → find_row rows ≡ some r → count_where rows ≢ 0
  unfolding find_row count_where
  count_where-ne [] r h = ground arith
  count_where-ne (s ∷ rows) r h = ground (arith, count_where-ne rows r)

  -- What a statement found satisfies its WHERE.
  pub find_row-holds : (rows : Tasks) (r : Row) → find_row rows ≡ some r → p r ≡ true
  unfolding find_row
  find_row-holds [] r h = cc
  find_row-holds (s ∷ rows) r h = ground (arith, find_row-holds rows r)

  pub length-update : (f : Row → Row) (rows : Tasks) → length (update_where f rows) ≡ length rows
  unfolding update_where
  length-update f [] = refl
  length-update f (r ∷ rows) = ground (arith, length-update f rows)

  -- A change that falsifies the WHERE leaves no row for it.
  pub count_where-update :
      (f : Row → Row) (rows : Tasks)
      → ((r : Row) → p r ≡ true → p (f r) ≡ false)
      → count_where (update_where f rows) ≡ 0
  unfolding update_where count_where
  count_where-update f [] h = refl
  count_where-update f (r ∷ rows) h = ground (arith, count_where-update f rows h, h r)

module _ (p q : Row → Bool) where
  -- A change that does not touch the test `q` keeps the number of rows that pass it.
  pub count_where-update_other :
      (f : Row → Row) (rows : Tasks)
      → ((r : Row) → q (f r) ≡ q r)
      → count_where q (update_where p f rows) ≡ count_where q rows
  unfolding update_where count_where
  count_where-update_other f [] h = refl
  count_where-update_other f (r ∷ rows) h = ground (arith, count_where-update_other f rows h, h r)

  -- A stronger WHERE touches no more rows.
  pub count_where-le :
      (rows : Tasks)
      → ((r : Row) → p r ≡ true → q r ≡ true)
      → count_where p rows ≤ count_where q rows
  unfolding count_where
  count_where-le [] sub = omega arith
  count_where-le (r ∷ rows) sub = ground (arith, count_where-le rows sub, sub r)

  -- Where at most one row passes `q`, a change under the stronger test `p` is seen through `q`.
  pub find_row-update :
      (f : Row → Row) (rows : Tasks)
      → ((r : Row) → p r ≡ true → q r ≡ true)
      → ((r : Row) → q (f r) ≡ q r)
      → count_where q rows ≤ 1
      → count_where p rows ≢ 0
      → (r : Row) × (p r ≡ true)
        × (find_row q rows ≡ some r)
        × (find_row q (update_where p f rows) ≡ some (f r))
  unfolding update_where count_where find_row
  find_row-update f [] sub keep one some_row = absurd (some_row refl)
  find_row-update f (r ∷ rows) sub keep one some_row = elim (Bool-cases (p r)) [
    | inl hit ↦ (r, hit, rw (sub r hit), rw hit (rw (keep r, sub r hit)))
    | inr miss ↦ elim (Bool-cases (q r)) [
      | inl blocked ↦ absurd (some_row (rw miss (ground (arith, one, count_where-le rows sub))))
      | inr free ↦
          let (s, hit, found, changed) =
            find_row-update f rows sub keep (ground (arith, one)) (rw miss at some_row) in
          (s, hit, rw free found, rw miss (rw free changed))
    ]
  ]

-- The first row that passes `q`, where it passes the stronger test `p`, is seen changed through `q`.
module _ (p q : Row → Bool) where
  pub find_row-first :
      (f : Row → Row) (rows : Tasks) (r : Row)
      → ((x : Row) → p x ≡ true → q x ≡ true)
      → ((x : Row) → q (f x) ≡ q x)
      → p r ≡ true
      → find_row q rows ≡ some r
      → find_row q (update_where p f rows) ≡ some (f r)
  unfolding update_where find_row
  find_row-first f [] r sub keep hit found = absurd (cc found)
  find_row-first f (x ∷ rows) r sub keep hit found = elim (Bool-cases (q x)) [
    | inl here ↦
        let same : x ≡ r = cc (rw here at found) in
        let hit' : p x ≡ true = ap p same ∙ hit in
        rw hit' (rw (keep x, here) (ap (λ y. some (f y)) same))
    | inr free ↦
        let rest = find_row-first f rows r sub keep hit (rw free at found) in
        elim (Bool-cases (p x)) [
          | inl inside ↦ absurd (cc (sub x inside, free))
          | inr miss ↦ rw miss (rw free rest)
        ]
  ]

-- ORDER BY key, stable
module _ (key : Row → ℕ) where
  unfoldable pub insert_sorted : Row → Tasks → Tasks
  insert_sorted r [] = r ∷ []
  insert_sorted r (s ∷ rows) =
      let rest = insert_sorted r rows in if ltb (key s) (key r) then s ∷ rest else r ∷ s ∷ rows

  unfoldable pub order_by : Tasks → Tasks
  unfolding insert_sorted
  order_by [] = []
  order_by (r ∷ rows) = insert_sorted r (order_by rows)
