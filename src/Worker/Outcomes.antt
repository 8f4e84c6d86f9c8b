-- ===== src/Worker/Outcomes.antt =====
-- The results that worker/runner.py builds: _build_result and _augment_with_cost.
use meta_agent.Common.{
  ℕ, String, ◌≡◌, refl, ◌⊎◌, inl, inr, ◌≤◌, ◌<◌, true, false, Option, none, some, List, arith, ◌==◌,
  ltb, is_some, Bool-cases, Option-cases, eq_iff, if◌then◌else◌,
}
use meta_agent.Errors.{Result, ok, err, value_error, Result-cases}
use meta_agent.Value.{arr}
use meta_agent.Dict.{get, get-put}
use meta_agent.RunState.{TaskRunState}
use meta_agent.Graph.{Graph}
use meta_agent.Task.{Task, TaskState, TaskResult, TaskResultStatus, validated, is_terminal}
use meta_agent.Worker.{UsageBucket}
use meta_agent.Worker.Results.{
  build_result, has_message, augment_with_cost, or_empty, result_with, graph_failure, cost_view,
}

-- what a result says of the run that it closes
pub record Closes (task : Task) (graph : Graph) (s : TaskRunState) (r : TaskResult)
    (terminal : TaskState) : Type 0 where
  pub of_task : r.task_id ≡ task.task_id
  pub of_tenant : r.tenant_id ≡ task.tenant_id
  pub of_graph : r.graph_id ≡ graph.graph_id
  pub at_sequence : r.node_sequence ≡ s.sequence
  pub is_valid : validated r ≡ ok r
  pub is_last : is_terminal terminal ≡ true
  pub error_kept : is_some r.error ≡ is_some s.error
  pub failed_state : terminal ≡ (if is_some s.error then TaskState.failed else TaskState.succeeded)

-- Where a run's error, if it has one, has a text, and the clock has not gone back since the run
-- began, the result is built: it is valid, it carries the run's identity and sequence number, its
-- state is terminal, and it is a failure with an error exactly where the run has an error. Otherwise
-- the construction raises ValueError.
pub build_result_law :
    (task : Task) (graph : Graph) (s : TaskRunState) (started_at finished_at : ℕ)
    → ((r : TaskResult) × (terminal : TaskState) × (build_result task graph s started_at finished_at
          ≡ ok (r, terminal))
        × Closes task graph s r terminal
        × (has_message s.error ≡ true)
        × (started_at ≤ finished_at))
      ⊎ ((build_result task graph s started_at finished_at ≡ err value_error)
          × ((has_message s.error ≡ false) ⊎ (finished_at < started_at)))
unfolding build_result
build_result_law task graph s st fin = elim (Option-cases s.error) [
  | inl clean ↦
      let r = result_with task graph s st fin TaskResultStatus.succeeded none in
      elim (Bool-cases (ltb fin st)) [
        | inl back ↦ inr (rw (clean, back) refl, inr (ground (arith, back)))
        | inr fine ↦ inl (
          r,
          TaskState.succeeded,
          rw (clean, fine) refl,
          record {
            of_task = refl;
            of_tenant = refl;
            of_graph = refl;
            at_sequence = refl;
            is_valid = rw fine refl;
            is_last = refl;
            error_kept = rw clean refl;
            failed_state = rw clean refl;
          },
          rw clean refl,
          ground (arith, fine),
        )
      ]
  | inr (text, failed) ↦
      let r =
        result_with task graph s st fin TaskResultStatus.failed (some (graph_failure s text)) in
      elim (Bool-cases (text == "")) [
        | inl empty ↦ inr (rw (failed, empty) refl, inl (rw (failed, empty) refl))
        | inr full ↦ elim (Bool-cases (ltb fin st)) [
          | inl back ↦ inr (rw (failed, full, back) refl, inr (ground (arith, back)))
          | inr fine ↦ inl (
            r,
            TaskState.failed,
            rw (failed, full, fine) refl,
            record {
              of_task = refl;
              of_tenant = refl;
              of_graph = refl;
              at_sequence = refl;
              is_valid = rw fine refl;
              is_last = refl;
              error_kept = rw failed refl;
              failed_state = rw failed refl;
            },
            rw (failed, full) refl,
            ground (arith, fine),
          )
        ]
      ]
]

eqb_sym : (a b : String) → (a == b) ≡ (b == a)
eqb_sym a b = ground (arith, eq_iff a b, eq_iff b a)

-- Adding the costs changes neither whether the result is valid nor any field of it but the output,
-- and of the output no key but `cost_by_step_kind`.
pub augment_keeps :
    (usage : Option (String → String → Result (List UsageBucket))) (task : Task) (r : TaskResult)
    (key : String)
    → (key == "cost_by_step_kind") ≡ false
    → (get (or_empty (augment_with_cost usage task r).output) key ≡ get (or_empty r.output) key)
      × (augment_with_cost usage task r
          ≡ record r { output = (augment_with_cost usage task r).output })
unfolding augment_with_cost
augment_keeps none task r key h = (refl, refl)
augment_keeps (some aggregate) task r key h =
    elim (Result-cases (aggregate task.tenant_id task.task_id)) [
      | inl (e, raised) ↦ (rw raised refl, rw raised refl)
      | inr (buckets, answered) ↦ (
        rw answered (
            rw
              (
                get-put (or_empty r.output) "cost_by_step_kind" key (arr (cost_view buckets)),
                eqb_sym "cost_by_step_kind" key,
                h,
              )
              refl),
        rw answered refl,
      )
    ]
