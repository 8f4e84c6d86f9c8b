-- ===== src/Worker/Sequence.antt =====
-- The sequence numbers of checkpoints and of steps.
use meta_agent.Common.{
  ℕ, suc, ◌+◌, String, ◌≡◌, refl, ap, Bool, true, false, ◌&&◌, none, some, List, [], ◌∷◌, ◌++◌,
  arith, eq_refl, ◌==◌, Bool-cases, inl, inr, ltb, if◌then◌else◌,
}
use meta_agent.Errors.{ok, expect, graph_error, >>=-ok}
use meta_agent.Dict.{get}
use meta_agent.RunState.{TaskRunState, start_node, end_node, advance}
use meta_agent.Graph.{Graph, NodeResult, step, apply_result, resolve_next}
use meta_agent.Graph.Runs.{Steps, here, next}
use meta_agent.Db.{TaskCheckpoint, has_checkpoint, latest_of}
use meta_agent.Worker.Load.{is_over}

-- every checkpoint of the task comes before `n`
unfoldable pub all_before : String → ℕ → List TaskCheckpoint → Bool
all_before task_id n [] = true
all_before task_id n (c ∷ cs) =
    (if c.task_id == task_id then ltb c.sequence n else true) && all_before task_id n cs

pub all_before-has :
    (task_id : String) (n : ℕ) (cs : List TaskCheckpoint)
    → all_before task_id n cs ≡ true
    → has_checkpoint task_id n cs ≡ false
unfolding all_before has_checkpoint
all_before-has i n [] h = refl
all_before-has i n (c ∷ cs) h = ground (arith, all_before-has i n cs)

pub all_before-append :
    (task_id : String) (n : ℕ) (c : TaskCheckpoint) (cs : List TaskCheckpoint)
    → c.sequence ≡ n
    → all_before task_id n cs ≡ true
    → all_before task_id (suc n) (cs ++ c ∷ []) ≡ true
unfolding all_before
all_before-append i n c [] same h = ground arith
all_before-append i n c (d ∷ cs) same h = ground (arith, all_before-append i n c cs same)

all_before-tail :
    (task_id : String) (n : ℕ) (c : TaskCheckpoint) (cs : List TaskCheckpoint)
    → all_before task_id n (c ∷ cs) ≡ true
    → all_before task_id n cs ≡ true
unfolding all_before
all_before-tail i n c cs h = ground (arith, h)

-- the last checkpoint is the latest one
pub latest_of-append :
    (tenant_id task_id : String) (c : TaskCheckpoint) (cs : List TaskCheckpoint)
    → c.tenant_id ≡ tenant_id
    → c.task_id ≡ task_id
    → all_before task_id c.sequence cs ≡ true
    → latest_of tenant_id task_id (cs ++ c ∷ []) ≡ some c
unfolding latest_of all_before
latest_of-append t i c [] ht hi h = rw (ht, hi, eq_refl t, eq_refl i) refl
latest_of-append t i c (d ∷ cs) ht hi h =
    let before = all_before-tail i c.sequence d cs h in
    rw (latest_of-append t i c cs ht hi before) (ground (arith, h))

apply_result-sequence :
    (g : Graph) (s t : TaskRunState) (current : String) (r : NodeResult)
    → apply_result g s current r ≡ ok t
    → t.sequence ≡ suc s.sequence
unfolding apply_result advance
apply_result-sequence g s t current r h = elim (Bool-cases r.awaiting_approval) [
  | inl pauses ↦
      let same : advance s current r.data_update (some false) (some true) none ≡ t =
        cc (rw pauses at h) in
      omega (arith, ap TaskRunState.sequence same)
  | inr goes ↦
      let advanced = advance s current r.data_update none none r.error in
      let (dst, found, rest) =
        >>=-ok (resolve_next g current advanced r.next_node)
          (λ dst. ok (record advanced { current_node = dst; finished = dst == end_node }))
          (rw goes at h) in
      let same : record advanced { current_node = dst; finished = dst == end_node } ≡ t = cc rest in
      omega (arith, ap TaskRunState.sequence same)
]

pub step-sequence :
    (g : Graph) (s t : TaskRunState)
    → is_over s ≡ false
    → step g s ≡ ok t
    → t.sequence ≡ suc s.sequence
unfolding step
step-sequence g s t live h =
    let (entry, at_entry, h1) = >>=-ok (expect g.entry graph_error) _ (rw live at h) in
    let (node, at_node, h2) =
      >>=-ok
        (expect (get g.nodes (if s.current_node == start_node then entry else s.current_node))
          graph_error)
        _ h1 in
    let (r, returned, h3) = >>=-ok (node s) _ h2 in
    apply_result-sequence g s t (if s.current_node == start_node then entry else s.current_node) r
      h3

pub steps_chain :
    {g : Graph} {j m : ℕ} {t v u : TaskRunState}
    → Steps g j t v
    → Steps g m v u
    → (k : ℕ) × (k ≡ j + m) × Steps g k t u
steps_chain {m = m} here rest = (m, omega arith, rest)
steps_chain (next live stepped first) rest =
    let (k, sum, steps) = steps_chain first rest in
    (suc k, omega (arith, sum), next live stepped steps)
