-- ===== src/Examples/Tasks.antt =====
-- Examples for TaskRepo.
use meta_agent.Common.{String, ◌≡◌, ◌≢◌, refl, some, [], ◌∷◌, eq_iff, arith, select}
use meta_agent.Common.{length}
use meta_agent.TaskRepo.Rows.{find_row}
use meta_agent.Errors.{ok, err, illegal_transition}
use meta_agent.Context.{check_tenant}
use meta_agent.Task.{TaskState, succeeded, failed}
use meta_agent.TaskRepo.{get_result, complete, guarded_update, upsert, with_id}
use meta_agent.TaskRepo.Rows.{Row, count_where, update_where}
use meta_agent.TaskRepo.Guards.{IsKeyed, complete_once}
use meta_agent.TaskRepo.Isolation.{write, finalise, of_tenant, write_isolated, upsert_crosses}
use meta_agent.Examples.Data.{tenant, task, row, running_rows, success}

one-IsKeyed : (r : Row) → IsKeyed (r ∷ [])
unfolding count_where
one-IsKeyed r i = ground arith

completed : (complete (some (tenant "acme")) "acme" "t1" success succeeded 5 running_rows).0 ≡ ok tt
unfolding complete check_tenant guarded_update count_where update_where
completed = refl

complete_once_example :
    let after = (complete (some (tenant "acme")) "acme" "t1" success succeeded 5 running_rows).1 in
    (get_result (some (tenant "acme")) "acme" "t1" after ≡ (ok (some success), after))
    × (complete (some (tenant "acme")) "acme" "t1" success failed 6 after
        ≡ (err illegal_transition, after))
complete_once_example =
    complete_once (some (tenant "acme")) "acme" "t1" success success succeeded failed 5 6
      running_rows (one-IsKeyed (row "acme" "t1" TaskState.running)) refl completed

apart : ◌≢◌ {A = String} "umbrella" "acme"
apart h = absurd (ground (arith, (eq_iff "umbrella" "acme").1 h))

write_isolated_example :
    select (of_tenant "umbrella") (
      write
        (some (tenant "acme"))
        "acme"
        "t1"
        (finalise success succeeded 5)
        (row "umbrella" "t1" TaskState.running ∷ running_rows))
    ≡ select (of_tenant "umbrella") (row "umbrella" "t1" TaskState.running ∷ running_rows)
write_isolated_example =
    write_isolated (tenant "acme") "acme" "t1" "umbrella" (finalise success succeeded 5)
      (row "umbrella" "t1" TaskState.running ∷ running_rows) apart

abbrev foreign : Row
foreign = row "umbrella" "t1" TaskState.running

there : find_row (with_id "t1") (foreign ∷ []) ≡ some foreign
unfolding find_row
there = refl

upsert_crosses_example :
    let answer =
      upsert (some (tenant "acme")) (task "acme" "t1" TaskState.pending) (foreign ∷ []) in
    (answer.0 ≡ ok tt)
    × (length answer.1 ≡ length {A = Row} (foreign ∷ []))
    × ((q : Row) × (find_row (with_id "t1") answer.1 ≡ some q)
        × (q.task.tenant_id ≡ foreign.task.tenant_id)
        × (q.task.state ≡ TaskState.pending)
        × (q.task.input_payload ≡ (task "acme" "t1" TaskState.pending).input_payload)
        × (q.result ≡ foreign.result))
upsert_crosses_example =
    upsert_crosses (tenant "acme") (task "acme" "t1" TaskState.pending) (foreign ∷ []) foreign refl
      there
