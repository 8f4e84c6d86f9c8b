-- ===== src/Graph/Runs.antt =====
-- Whole runs: Graph.run of core/orchestration/graph.py and its bound `max_steps`.
use meta_agent.Common.{
  ℕ, zero, suc, ◌≤◌, ◌<◌, ◌≡◌, inl, inr, Bool, true, false, ◌||◌, arith, Bool-cases,
}
use mathlib.Core.Path.{subst}
use meta_agent.Errors.{ok, >>=-ok}
use meta_agent.RunState.{TaskRunState}
use meta_agent.Graph.{Graph, compile, step, run}
use meta_agent.Graph.Build.{IsWired}
use meta_agent.Graph.Steps.{Behaves, IsPlaced, step-IsPlaced}

abbrev pub is_over : TaskRunState → Bool
is_over s = s.finished || s.awaiting_approval

-- `n` steps of a run that goes on: each of them at a state that is neither finished nor paused
pub data Steps (g : Graph) : ℕ → TaskRunState → TaskRunState → Type 0 where
  here : {s : TaskRunState} → Steps g zero s s
  next :
      {n : ℕ} {s t u : TaskRunState}
      → is_over s ≡ false
      → step g s ≡ ok t
      → Steps g n t u
      → Steps g (suc n) s u

ended :
    (n : ℕ) (g : Graph) (s t : TaskRunState)
    → is_over s ≡ true
    → ok s ≡ ok t
    → (is_over t ≡ true) × ((k : ℕ) × (k ≤ n) × Steps g k s t)
ended n g s t over h =
    let same : s ≡ t = cc h in
    subst (λ x. (is_over x ≡ true) × ((k : ℕ) × (k ≤ n) × Steps g k s x)) same
      (over, (0, omega arith, here))

-- If `run` returns, its result is finished or paused, and is reached by at most `max_steps` steps,
-- each from a state that was neither.
pub run_sound :
    (n : ℕ) (g : Graph) (s t : TaskRunState)
    → run n g s ≡ ok t
    → (is_over t ≡ true) × ((k : ℕ) × (k ≤ n) × Steps g k s t)
unfolding run
run_sound zero g s t h = elim (Bool-cases (is_over s)) [
  | inl over ↦ ended zero g s t over (rw over at h)
  | inr live ↦ absurd (cc (rw live at h))
]
run_sound (suc n) g s t h = elim (Bool-cases (is_over s)) [
  | inl over ↦ ended (suc n) g s t over (rw over at h)
  | inr live ↦
      let (s', stepped, rest) = >>=-ok (step g s) (run n g) (rw live at h) in
      let (ends, reached) = run_sound n g s' t rest in
      let (k, le, steps) = reached in (ends, (suc k, omega arith, next live stepped steps))
]

-- Conversely `run` returns the state at which such steps first end, if they are at most `max_steps`.
pub run_complete :
    (n k : ℕ) (g : Graph) {s t : TaskRunState}
    → Steps g k s t
    → k ≤ n
    → is_over t ≡ true
    → run n g s ≡ ok t
unfolding run
run_complete zero k g here le over = rw over
run_complete (suc n) k g here le over = rw over
run_complete zero k g (next live stepped steps) le over = absurd (omega arith)
run_complete (suc n) k g (next live stepped steps) le over =
    rw (live, stepped) (run_complete n _ g steps (omega arith) over)

-- On a graph that the building methods made and `compile` accepted, whose nodes and routers return
-- and name only nodes or END: if a number falls with each step of a run that goes on, and is at
-- most `max_steps` at the start, then `run` returns from a state that is finished or stands at START
-- or at a node.
pub run-total :
    (n : ℕ) (g : Graph) (rank : TaskRunState → ℕ) (s : TaskRunState)
    → IsWired g
    → Behaves g
    → compile g ≡ ok tt
    → ((s t : TaskRunState) → is_over s ≡ false → step g s ≡ ok t → rank t < rank s)
    → IsPlaced g s
    → rank s ≤ n
    → (t : TaskRunState) × (run n g s ≡ ok t)
unfolding run
run-total zero g rank s w b compiled falls placed le = elim (Bool-cases (is_over s)) [
  | inl over ↦ (s, rw over)
  | inr live ↦
      let (t, stepped, still, grows) = step-IsPlaced g w b s compiled live placed in
      absurd (omega (arith, falls s t live stepped))
]
run-total (suc n) g rank s w b compiled falls placed le = elim (Bool-cases (is_over s)) [
  | inl over ↦ (s, rw over)
  | inr live ↦
      let (t, stepped, still, grows) = step-IsPlaced g w b s compiled live placed in
      let (u, returns) =
        run-total n g rank t w b compiled falls still (omega (arith, falls s t live stepped)) in
      (u, rw (live, stepped) returns)
]
