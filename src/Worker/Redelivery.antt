-- ===== src/Worker/Redelivery.antt =====
-- A message that worker/runner.py gets again for a task that has ended.
use meta_agent.Common.{
  ℕ, String, ◌≡◌, refl, ap, sym, ◌∙◌, true, Option, some, eq_refl, Bool-cases, inl, inr, ltb,
}
use mathlib.Core.Path.{subst}
use meta_agent.Errors.{ok, Result-cases}
use meta_agent.Exec.{Exec, ◌>>◌}
use meta_agent.Dict.{Dict}
use meta_agent.Value.{Value}
use meta_agent.Context.{RequestContext, check_tenant}
use meta_agent.Task.{validated, is_terminal}
use meta_agent.TaskRepo
use meta_agent.TaskRepo.{where_open, guarded_update, complete, with_id}
use meta_agent.TaskRepo.Rows.{Row, at_key, find_row}
use meta_agent.TaskRepo.Guards.{IsKeyed}
use meta_agent.TaskRepo.Ended.{complete-refused, own-key}
use meta_agent.Worker.{WorkerLoop, World, MessageEnvelope, DeliveredMessage, audit, ack}
use meta_agent.Worker.Fresh.{audit-Untouched}
use meta_agent.Worker.Load.{envelope_to_context}
use meta_agent.Worker.Dispatch.{dispatch}
use meta_agent.Worker.Serve.{
  abandon, abandon_open, abandon_to, is_closed, abandoned_result, latest_sequence, handle,
}
use meta_agent.Db.{latest_checkpoint, latest_of}
use meta_agent.Registry.{resolve_graph}

-- the tables and the workspaces
abbrev pub Unmoved : World → World → Type 0
Unmoved s s' = (s'.db ≡ s.db) × (s'.calls ≡ s.calls)

own_tenant :
    (envelope : MessageEnvelope)
    → check_tenant (some (envelope_to_context envelope)) envelope.tenant_id ≡ ok tt
unfolding check_tenant envelope_to_context
own_tenant envelope = rw (eq_refl envelope.tenant_id) refl

module _ {Deps : Type 0} (w : WorkerLoop Deps) where
  -- an audit, and then calls that move nothing
  audit-Unmoved :
      (bound : Option RequestContext) (ctx : RequestContext) (action : String)
      (payload : Dict Value) (rest : Exec World (Unit {0})) (s : World)
      → ((s' : World) → Unmoved s s' → Unmoved s (rest s').1)
      → Unmoved s ((audit w bound ctx action payload >> rest) s).1
  audit-Unmoved bound ctx action payload rest s h =
      let (db, acked, calls) = audit-Untouched w bound ctx action payload s in
      let moved : Unmoved s (audit w bound ctx action payload s).1 = (db, calls) in
      elim (Result-cases (audit w bound ctx action payload s).0) [
        | inl (e, raised) ↦ rw raised moved
        | inr (u, noted) ↦ rw noted (h (audit w bound ctx action payload s).1 moved)
      ]

  dispatch-terminal :
      (fuel : ℕ) (msg : DeliveredMessage) (task_id : String) (r : Row) (s : World)
      → msg.envelope.task_id ≡ some task_id
      → find_row (at_key msg.envelope.tenant_id task_id) s.db.tasks ≡ some r
      → is_terminal r.task.state ≡ true
      → let ctx = envelope_to_context msg.envelope in
        Unmoved s (dispatch w (some ctx) ctx fuel msg s).1
  unfolding dispatch TaskRepo.get check_tenant envelope_to_context
  dispatch-terminal fuel msg task_id r s at_msg found over =
      rw (at_msg, eq_refl msg.envelope.tenant_id, found)
        (rw over (audit-Unmoved _ _ _ _ (ack msg.entry_id) s (λ s' h. h)))

  open-Unmoved :
      (bound : Option RequestContext) (ctx : RequestContext) (msg : DeliveredMessage)
      (reason : String) (r : Row) (s : World)
      → check_tenant bound r.task.tenant_id ≡ ok tt
      → IsKeyed s.db.tasks
      → find_row (at_key r.task.tenant_id r.task.task_id) s.db.tasks ≡ some r
      → is_terminal r.task.state ≡ true
      → Unmoved s (abandon_open w bound ctx msg reason r.task s).1
  unfolding latest_checkpoint
  open-Unmoved bound ctx msg reason r s chk keyed found over =
      elim (Result-cases (resolve_graph w.registry r.task.task_type r.task.graph_id)) [
        | inl (e, unknown) ↦ rw unknown (refl, refl)
        | inr (graph, resolved) ↦
            rw (resolved, chk)
              (let sequence =
                  latest_sequence (latest_of r.task.tenant_id r.task.task_id s.db.checkpoints) in
                let result =
                  abandoned_result w bound ctx msg reason r.task graph sequence (w.clock s.ticks) in
                elim (Result-cases (validated result)) [
                  | inl (e, invalid) ↦ rw invalid (refl, refl)
                  | inr (v, valid) ↦ rw valid (
                      rw
                        (complete-refused bound r.task.tenant_id r.task.task_id v (w.clock s.ticks)
                          s.db.tasks r chk keyed found over)
                        (refl, refl))
                ])
      ]

  to-Unmoved :
      (bound : Option RequestContext) (ctx : RequestContext) (msg : DeliveredMessage)
      (reason task_id : String) (r : Row) (s : World)
      → check_tenant bound msg.envelope.tenant_id ≡ ok tt
      → IsKeyed s.db.tasks
      → find_row (at_key msg.envelope.tenant_id task_id) s.db.tasks ≡ some r
      → is_terminal r.task.state ≡ true
      → Unmoved s (abandon_to w bound ctx msg reason (some task_id) s).1
  unfolding TaskRepo.get
  to-Unmoved bound ctx msg reason task_id r s chk keyed found over =
      let (tenant, key) = own-key msg.envelope.tenant_id task_id s.db.tasks r found in
      let at_own =
        ap (λ x. find_row (at_key x r.task.task_id) s.db.tasks) tenant
        ∙ (ap (λ x. find_row (at_key msg.envelope.tenant_id x) s.db.tasks) key ∙ found) in
      let chk_own = ap (check_tenant bound) tenant ∙ chk in
      let rest = open-Unmoved bound ctx msg reason r s chk_own keyed at_own over in
      elim (Bool-cases (is_closed r.task.state)) [
        | inl closed ↦ rw (chk, found) (rw closed (refl, refl))
        | inr expired ↦ rw (chk, found) (rw expired rest)
      ]

  abandon-terminal :
      (msg : DeliveredMessage) (reason task_id : String) (r : Row) (s : World)
      → msg.envelope.task_id ≡ some task_id
      → IsKeyed s.db.tasks
      → find_row (at_key msg.envelope.tenant_id task_id) s.db.tasks ≡ some r
      → is_terminal r.task.state ≡ true
      → let ctx = envelope_to_context msg.envelope in
        Unmoved s (abandon w (some ctx) ctx msg reason s).1
  unfolding abandon
  abandon-terminal msg reason task_id r s at_msg keyed found over =
      let ctx = envelope_to_context msg.envelope in
      audit-Unmoved (some ctx) ctx "task.abandoned" _
        (abandon_to w (some ctx) ctx msg reason msg.envelope.task_id) s
        (λ s' moved.
          let rows = ap (λ db. db.tasks) moved.0 in
          let inner =
            to-Unmoved (some ctx) ctx msg reason task_id r s' (own_tenant msg.envelope)
              (subst IsKeyed (sym rows) keyed)
              (ap (find_row (at_key msg.envelope.tenant_id task_id)) rows ∙ found) over in
          subst (λ id. Unmoved s (abandon_to w (some ctx) ctx msg reason id s').1) (sym at_msg)
            (inner.0 ∙ moved.0, inner.1 ∙ moved.1))

  -- However often a message is delivered, and whichever way it is handled, if its task has ended and
  -- no two rows have the same task_id, then the tables of tasks, checkpoints and outbox events stay as
  -- they are, and no workspace is provisioned or cleaned.
  pub handle-terminal :
      (fuel : ℕ) (msg : DeliveredMessage) (task_id : String) (r : Row) (s : World)
      → msg.envelope.task_id ≡ some task_id
      → IsKeyed s.db.tasks
      → find_row (at_key msg.envelope.tenant_id task_id) s.db.tasks ≡ some r
      → is_terminal r.task.state ≡ true
      → Unmoved s (handle w fuel msg s).1
  unfolding handle
  handle-terminal fuel msg task_id r s at_msg keyed found over =
      let ctx = envelope_to_context msg.envelope in
      elim (Bool-cases (ltb w.max_attempts msg.delivery_count)) [
        | inl often ↦
            rw often
              (abandon-terminal msg "delivery_count_exceeded" task_id r s at_msg keyed found over)
        | inr few ↦
            let moved = dispatch-terminal fuel msg task_id r s at_msg found over in
            elim (Result-cases (dispatch w (some ctx) ctx fuel msg s).0) [
              | inl (e, raised) ↦ rw (few, raised) moved
              | inr (u, returned) ↦ rw (few, returned) moved
            ]
      ]
