-- ===== src/Examples/Resuming.antt =====
-- Examples for Worker.Resume: a worker that takes a run over, in a workspace at another path.
use mathlib.Core.Path.{sym}
use meta_agent.Common.{◌≡◌, refl, ap, ◌∙◌, ◌⊎◌, inl, inr, true, false, none, some, [], arith}
use meta_agent.Errors.{ok}
use meta_agent.Dict.{get, put, update}
use meta_agent.RunState.{TaskRunState, start_node, advance}
use meta_agent.Graph.{step, apply_result, resolve_next, follow_edge}
use meta_agent.Graph.Runs.{Steps}
use meta_agent.Worker.{Workspace}
use meta_agent.Worker.Load.{load_state, run_steps, with_workspace, is_over}
use meta_agent.Worker.Resume.{Respects, go_on, crash_resume}
use meta_agent.Examples.Data.{tenant, run_state}
use meta_agent.Examples.Working.{
  worker, world, unrepeated, fresh, two, planned, executed, the_task, bound_tenant, none_before,
}

abbrev old_room : Workspace
old_room = record {
  workspace_id = "w1";
  tenant_id = "acme";
  task_id = "t1";
  trace_id = "trace";
  repo_url = none;
  base_ref = none;
  branch = "agent/t1";
  worktree_path = "/work/w1/feature";
  created_at = 0;
}

abbrev new_room : Workspace
new_room = record old_room { workspace_id = "w2"; worktree_path = "/work/w2/feature" }

abbrev begun : TaskRunState
begun = with_workspace (some old_room) (run_state start_node)

abbrev reached : TaskRunState
reached = with_workspace (some old_room) planned

abbrev seeded : TaskRunState
seeded = with_workspace (some new_room) reached

abbrev ended : TaskRunState
ended = with_workspace (some old_room) executed

abbrev ended_there : TaskRunState
ended_there = with_workspace (some new_room) ended

first_step : step two begun ≡ ok reached
unfolding step apply_result resolve_next follow_edge get put advance update
first_step = refl

second_step : step two reached ≡ ok ended
unfolding step apply_result resolve_next follow_edge get put advance update
second_step = refl

second_step_there : step two seeded ≡ ok ended_there
unfolding step apply_result resolve_next follow_edge get put advance update
second_step_there = refl

-- the same place of the run, in the two workspaces
abbrev Beside : TaskRunState → TaskRunState → Type 0
Beside x y = ((x ≡ reached) × (y ≡ seeded)) ⊎ ((x ≡ ended) × (y ≡ ended_there))

Beside-over : (x y : TaskRunState) → Beside x y → is_over x ≡ is_over y
Beside-over x y (inl (at_x, at_y)) = ap is_over at_x ∙ sym (ap is_over at_y)
Beside-over x y (inr (at_x, at_y)) = ap is_over at_x ∙ sym (ap is_over at_y)

Beside-numbered : (x y : TaskRunState) → Beside x y → x.sequence ≡ y.sequence
Beside-numbered x y (inl (at_x, at_y)) =
    ap TaskRunState.sequence at_x ∙ sym (ap TaskRunState.sequence at_y)
Beside-numbered x y (inr (at_x, at_y)) =
    ap TaskRunState.sequence at_x ∙ sym (ap TaskRunState.sequence at_y)

of_ok : {x y : TaskRunState} → ok x ≡ ok y → x ≡ y
of_ok h = cc h

Beside-steps :
    (x y x' : TaskRunState)
    → Beside x y
    → is_over x ≡ false
    → step two x ≡ ok x'
    → (y' : TaskRunState) × (step two y ≡ ok y') × Beside x' y'
Beside-steps x y x' (inl (at_x, at_y)) live stepped = (
  ended_there,
  ap (step two) at_y ∙ second_step_there,
  inr (of_ok (sym stepped ∙ (ap (step two) at_x ∙ second_step)), refl),
)
Beside-steps x y x' (inr (at_x, at_y)) live stepped =
    let over : is_over x ≡ true = ap is_over at_x in absurd (cc (live, over))

respects : Respects two Beside
respects = record { agrees = Beside-over; numbered = Beside-numbered; steps = Beside-steps }

crash_resume_example :
    let after = (run_steps worker (some (tenant "acme")) 1 the_task two begun (world [])).1 in
    (load_state (some (tenant "acme")) the_task two after ≡ (ok reached, after))
    × ((run_steps worker (some (tenant "acme")) 4 the_task two begun (world [])).0 ≡ ok ended)
    × ((u' : TaskRunState) × ((go_on worker
            (some (tenant "acme"))
            the_task
            two
            bound_tenant
            unrepeated
            4
            (some new_room)
            after).0
          ≡ ok u')
        × Beside ended u')
crash_resume_example =
    crash_resume worker (some (tenant "acme")) the_task two bound_tenant unrepeated Beside 0 1 4 4
      (some new_room) respects (Steps.next refl first_step Steps.here)
      (Steps.next refl second_step Steps.here) refl (inl (refl, refl)) (omega arith) (omega arith)
      (world []) (fresh []) (none_before 1)
