-- ===== src/Worker/Resume.antt =====
-- The loop of worker/runner.py over a graph's steps, its checkpoints, and what a worker that takes
-- over goes on from.
use meta_agent.Common.{
  ℕ, zero, suc, ◌+◌, ◌≤◌, ◌≡◌, refl, ap, sym, ◌∙◌, true, false, Option, some, arith,
}
use mathlib.Core.Path.{subst}
use meta_agent.Errors.{ok}
use meta_agent.Context.{RequestContext, check_tenant}
use meta_agent.RunState.{TaskRunState}
use meta_agent.Graph.{Graph, step, run}
use meta_agent.Graph.Runs.{Steps, here, next, run_sound}
use meta_agent.Task.{Task}
use meta_agent.Db.{TaskCheckpoint, latest_of, latest_checkpoint}
use meta_agent.Exec.{Exec, continue, ◌>>=◌}
use meta_agent.Worker.{WorkerLoop, World, Workspace}
use meta_agent.Worker.Load.{
  run_steps, load_state, persist_step, step_checkpoint, is_over, with_workspace,
}
use meta_agent.Worker.Fresh.{IsFresh, IsInjective, persist_step-ok}
use meta_agent.Worker.Sequence.{
  all_before, all_before-has, all_before-append, latest_of-append, step-sequence, steps_chain,
}

-- steps from related states go alike, and lead to related states
pub record Respects (graph : Graph) (related : TaskRunState → TaskRunState → Type 0) : Type 0 where
  pub agrees : (x y : TaskRunState) → related x y → is_over x ≡ is_over y
  pub numbered : (x y : TaskRunState) → related x y → x.sequence ≡ y.sequence
  pub steps :
      (x y x' : TaskRunState)
      → related x y
      → is_over x ≡ false
      → step graph x ≡ ok x'
      → (y' : TaskRunState) × (step graph y ≡ ok y') × related x' y'

simulate :
    {graph : Graph} {related : TaskRunState → TaskRunState → Type 0} {m : ℕ} {x u : TaskRunState}
    → Respects graph related
    → Steps graph m x u
    → (y : TaskRunState) → related x y
    → (u' : TaskRunState) × Steps graph m y u' × related u u'
simulate respects here y same = (y, here, same)
simulate respects (next live stepped rest) y same =
    let (y', stepped', same') = respects.steps _ y _ same live stepped in
    let (u', rest', last) = simulate respects rest y' same' in
    (u', next (sym (respects.agrees _ y same) ∙ live) stepped' rest', last)

module _ {Deps : Type 0} (w : WorkerLoop Deps) (bound : Option RequestContext) where
  load-latest :
      (task : Task) (graph : Graph) (c : TaskCheckpoint) (s : World)
      → check_tenant bound task.tenant_id ≡ ok tt
      → latest_of task.tenant_id task.task_id s.db.checkpoints ≡ some c
      → load_state bound task graph s ≡ (ok c.state_snapshot, s)
  unfolding load_state latest_checkpoint
  load-latest task graph c s chk found = rw (chk, found) refl

  -- What JSON keeps of the state of a step that was stored is what a worker loads.
  load-persist :
      (task : Task) (graph : Graph) (t : TaskRunState) (s : World)
      → check_tenant bound task.tenant_id ≡ ok tt
      → IsInjective w.id_factory
      → IsFresh w s
      → all_before task.task_id t.sequence s.db.checkpoints ≡ true
      → let after = (persist_step w bound task t s).1 in
        load_state bound task graph after ≡ (ok (w.formats.snapshot t), after)
  load-persist task graph t s chk inj fresh before =
      let (done, fresh', kept) =
        persist_step-ok w bound task t s chk inj fresh
          (all_before-has task.task_id t.sequence s.db.checkpoints before) in
      let c = step_checkpoint w bound task t (w.id_factory s.minted) (w.clock s.ticks) in
      load-latest task graph c _ chk (
        ap (λ db. latest_of task.tenant_id task.task_id db.checkpoints) kept.0
        ∙ latest_of-append _ _ c s.db.checkpoints refl refl before)

  -- the worlds that the loop may be in: fresh ids, and all checkpoints of the task behind the state
  abbrev IsBehind : Task → TaskRunState → World → Type 0
  IsBehind task t s =
      IsFresh w s × (all_before task.task_id (suc t.sequence) s.db.checkpoints ≡ true)

  persist-IsBehind :
      (task : Task) (t : TaskRunState) (s : World)
      → check_tenant bound task.tenant_id ≡ ok tt
      → IsInjective w.id_factory
      → IsFresh w s
      → all_before task.task_id t.sequence s.db.checkpoints ≡ true
      → IsBehind task t (persist_step w bound task t s).1
  persist-IsBehind task t s chk inj fresh before =
      let (done, fresh', kept) =
        persist_step-ok w bound task t s chk inj fresh
          (all_before-has task.task_id t.sequence s.db.checkpoints before) in
      let c = step_checkpoint w bound task t (w.id_factory s.minted) (w.clock s.ticks) in
      (
        fresh',
        ap (λ db. all_before task.task_id (suc t.sequence) db.checkpoints) kept.0
            ∙ all_before-append task.task_id t.sequence c s.db.checkpoints refl before,
      )

  module _ (task : Task) (graph : Graph) (chk : check_tenant bound task.tenant_id ≡ ok tt)
      (inj : IsInjective w.id_factory) where
    -- one round of the loop: the step is stored and the loop goes on behind it
    run-next :
        (fuel : ℕ) (t t' : TaskRunState) (s : World)
        → is_over t ≡ false
        → step graph t ≡ ok t'
        → IsBehind task t s
        → let after = (persist_step w bound task t' s).1 in
          (run_steps w bound (suc fuel) task graph t s ≡ run_steps w bound fuel task graph t' after)
          × IsBehind task t' after
          × (load_state bound task graph after ≡ (ok (w.formats.snapshot t'), after))
    unfolding run_steps
    run-next fuel t t' s live stepped (fresh, before) =
        let before' =
          subst (λ n. all_before task.task_id n s.db.checkpoints ≡ true)
            (sym (step-sequence graph t t' live stepped)) before in
        let (done, fresh', kept) =
          persist_step-ok w bound task t' s chk inj fresh
            (all_before-has task.task_id t'.sequence s.db.checkpoints before') in
        (
          rw (live, stepped, done) refl,
          persist-IsBehind task t' s chk inj fresh before',
          load-persist task graph t' s chk inj fresh before',
        )

    -- the loop makes the steps, stores each, and ends where they end
    steps-run :
        {k : ℕ} {t u : TaskRunState}
        → Steps graph k t u
        → is_over u ≡ true
        → (fuel : ℕ) (s : World) → k ≤ fuel
        → IsBehind task t s
        → (run_steps w bound fuel task graph t s).0 ≡ ok u
    unfolding run_steps
    steps-run here over zero s le behind = rw over refl
    steps-run here over (suc fuel) s le behind = rw over refl
    steps-run (next live stepped rest) over zero s le behind = absurd (ground (arith, le))
    steps-run (next live stepped rest) over (suc fuel) s le behind =
        let (goes, behind', loaded) = run-next fuel _ _ s live stepped behind in
        ap (λ x. x.0) goes ∙ steps-run rest over fuel _ (omega (arith, le)) behind'

    -- the world is one that a worker goes on from at `v`
    abbrev IsAt : TaskRunState → World → Type 0
    IsAt v s = IsBehind task v s × (load_state bound task graph s ≡ (ok (w.formats.snapshot v), s))

    -- what a worker does to go on: it loads the state, seeds the workspace's keys and runs the loop
    abbrev pub go_on : ℕ → Option Workspace → Exec World TaskRunState
    go_on fuel workspace = do
      loaded ← load_state bound task graph
      run_steps w bound fuel task graph (with_workspace workspace loaded)

    run-zero : (t : TaskRunState) (s : World) → (run_steps w bound 0 task graph t s).1 ≡ s
    unfolding run_steps
    run-zero t s = ground arith

    -- a loop that is cut off after `j` steps leaves their last state to be loaded
    cut-IsAt :
        {j : ℕ} {t v : TaskRunState}
        → Steps graph j t v
        → (s : World) → IsAt t s
        → IsAt v (run_steps w bound j task graph t s).1
    cut-IsAt {t = t} here s at_t = subst (λ x. IsAt t x) (sym (run-zero t s)) at_t
    cut-IsAt {v = v} (next live stepped rest) s (behind, loaded) =
        let (goes, behind', loaded') = run-next _ _ _ s live stepped behind in
        subst (λ x. IsAt v x.1) (sym goes) (cut-IsAt rest _ (behind', loaded'))

    -- the first step stores what the later ones need
    cut-first :
        {j : ℕ} {t v : TaskRunState}
        → Steps graph (suc j) t v
        → (s : World) → IsBehind task t s
        → IsAt v (run_steps w bound (suc j) task graph t s).1
    cut-first {v = v} (next live stepped rest) s behind =
        let (goes, behind', loaded') = run-next _ _ _ s live stepped behind in
        subst (λ x. IsAt v x.1) (sym goes) (cut-IsAt rest _ (behind', loaded'))

    -- Where Graph.run returns within its bound, the loop with that fuel returns the same state, under
    -- the tenant's context, with ids that are never repeated and with every checkpoint of the task
    -- behind the state.
    pub run_steps-run :
        (n : ℕ) (t u : TaskRunState) (s : World)
        → run n graph t ≡ ok u
        → IsFresh w s
        → all_before task.task_id (suc t.sequence) s.db.checkpoints ≡ true
        → (run_steps w bound n task graph t s).0 ≡ ok u
    run_steps-run n t u s h fresh before =
        let (over, reached) = run_sound n graph t u h in
        let (k, le, steps) = reached in steps-run steps over n s le (fresh, before)

    -- A worker that stops after one or more steps of a run, and a worker that takes over: the second
    -- loads what JSON keeps of the state that the first had reached, seeds the keys of its own
    -- workspace, and its loop ends in a state that is related to the one in which the loop of a worker
    -- that never stopped ends, given fuel for the steps that each makes. The relation is any that holds
    -- between the state that was reached and the state that was seeded, and that the steps of the graph
    -- respect: equality, where JSON keeps the state and there is no workspace, or what the nodes read
    -- of a state where the workspace is another one. The tenant's context is bound, ids are never
    -- repeated, and every checkpoint of the task is behind the state at which the first worker begins.
    pub crash_resume :
        (related : TaskRunState → TaskRunState → Type 0) (j m fuel whole : ℕ)
        (workspace : Option Workspace) {t v u : TaskRunState}
        → Respects graph related
        → Steps graph (suc j) t v
        → Steps graph m v u
        → is_over u ≡ true
        → related v (with_workspace workspace (w.formats.snapshot v))
        → m ≤ fuel
        → suc j + m ≤ whole
        → (s : World) → IsFresh w s
        → all_before task.task_id (suc t.sequence) s.db.checkpoints ≡ true
        → let after = (run_steps w bound (suc j) task graph t s).1 in
          (load_state bound task graph after ≡ (ok (w.formats.snapshot v), after))
          × ((run_steps w bound whole task graph t s).0 ≡ ok u)
          × ((u' : TaskRunState) × ((go_on fuel workspace after).0 ≡ ok u') × related u u')
    crash_resume related j m fuel whole workspace {v = v} respects first rest over seeded le le' s
          fresh before =
        let (behind, loaded) = cut-first first s (fresh, before) in
        let (k, sum, steps) = steps_chain first rest in
        let after = (run_steps w bound (suc j) task graph _ s).1 in
        let (u', rest', same) = simulate respects rest _ seeded in
        (
          loaded,
          steps-run steps over whole s (omega (arith, sum, le')) (fresh, before),
          (
            u',
            ap
                  (λ x.
                    (continue x.0
                      (λ l. run_steps w bound fuel task graph (with_workspace workspace l)) x.1).0)
                  loaded
                ∙ steps-run rest' (sym (respects.agrees _ _ same) ∙ over) fuel _ le (
                  behind.0,
                  ap (λ n. all_before task.task_id (suc n) after.db.checkpoints)
                        (sym (respects.numbered _ _ seeded))
                      ∙ behind.1,
                ),
            same,
          ),
        )
