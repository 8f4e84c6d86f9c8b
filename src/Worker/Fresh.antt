-- ===== src/Worker/Fresh.antt =====
-- What an audit of worker/runner.py leaves alone, and when it succeeds: on fresh ids.
use meta_agent.Common.{
  ℕ, suc, ◌≤◌, String, ◌≡◌, refl, false, ◌||◌, Option, List, [], ◌∷◌, ◌++◌, arith, eq_iff, ◌==◌,
  ◌≢◌, Bool-cases, inl, inr,
}
use meta_agent.Errors.{ok}
use meta_agent.Context.{RequestContext, check_tenant}
use meta_agent.Dict.{Dict}
use meta_agent.Value.{Value}
use meta_agent.RunState.{TaskRunState}
use meta_agent.Task.{Task}
use meta_agent.Db.{has_checkpoint_id, has_checkpoint, append_checkpoint, TaskCheckpoint}
use meta_agent.Sweeper.{AuditEvent, append_audit, has_audit}
use meta_agent.Worker.{WorkerLoop, World, audit, audit_event}
use meta_agent.Worker.Load.{task_to_context, persist_step, step_checkpoint}

-- all of the world but the audits, the deliveries and the counters
abbrev pub Untouched : World → World → Type 0
Untouched s s' = (s'.db ≡ s.db) × (s'.acked ≡ s.acked) × (s'.calls ≡ s.calls)

abbrev pub IsInjective : (ℕ → String) → Type 0
IsInjective f = (i j : ℕ) → f i ≡ f j → i ≡ j

lt_ne : (i j : ℕ) → suc i ≤ j → i ≢ j
lt_ne i j h = ground arith

-- an id that comes later is another one
pub other_id : (f : ℕ → String) (i j : ℕ) → IsInjective f → suc i ≤ j → (f i == f j) ≡ false
other_id f i j inj h = elim (Bool-cases (f i == f j)) [
  | inl same ↦ absurd (lt_ne i j h (inj i j (ground (arith, same, eq_iff (f i) (f j)))))
  | inr differ ↦ differ
]

module _ {Deps : Type 0} (w : WorkerLoop Deps) where
  -- no id that is still to come is in a table
  pub record IsFresh (s : World) : Type 0 where
    pub no_checkpoint :
        (i : ℕ) → s.minted ≤ i → has_checkpoint_id (w.id_factory i) s.db.checkpoints ≡ false
    pub no_audit : (i : ℕ) → s.minted ≤ i → has_audit (w.id_factory i) s.audits ≡ false

  pub audit-Untouched :
      (bound : Option RequestContext) (ctx : RequestContext) (action : String)
      (payload : Dict Value) (s : World)
      → Untouched s (audit w bound ctx action payload s).1
  unfolding audit
  audit-Untouched bound ctx action payload s = ground arith

  has_audit-append :
      (id : String) (a : AuditEvent) (audits : List AuditEvent)
      → has_audit id (audits ++ a ∷ []) ≡ (has_audit id audits || a.event_id == id)
  unfolding has_audit
  has_audit-append id a [] = ground arith
  has_audit-append id a (b ∷ audits) = ground (arith, has_audit-append id a audits)

  pub audit-ok :
      (bound : Option RequestContext) (ctx : RequestContext) (action : String)
      (payload : Dict Value) (s : World)
      → check_tenant bound ctx.tenant_id ≡ ok tt
      → IsInjective w.id_factory
      → IsFresh s
      → ((audit w bound ctx action payload s).0 ≡ ok tt)
        × IsFresh (audit w bound ctx action payload s).1
  unfolding audit append_audit
  audit-ok bound ctx action payload s chk inj fresh =
      let free = fresh.no_audit s.minted (omega arith) in
      rw (chk, free)
        (
          refl,
          record {
            no_checkpoint = λ i h. fresh.no_checkpoint i (omega (arith, h));
            no_audit = λ i h.
                rw
                  (has_audit-append (w.id_factory i)
                    (audit_event w ctx action payload (w.id_factory s.minted) (w.clock s.ticks))
                    s.audits)
                  (rw (fresh.no_audit i (omega (arith, h)), other_id w.id_factory s.minted i inj h)
                    refl);
          },
        )

  has_checkpoint_id-append :
      (id : String) (c : TaskCheckpoint) (cs : List TaskCheckpoint)
      → has_checkpoint_id id (cs ++ c ∷ []) ≡ (has_checkpoint_id id cs || c.checkpoint_id == id)
  unfolding has_checkpoint_id
  has_checkpoint_id-append id c [] = ground arith
  has_checkpoint_id-append id c (d ∷ cs) = ground (arith, has_checkpoint_id-append id c cs)

  -- the world once a step's checkpoint is stored, before its audit
  abbrev pub stored : TaskCheckpoint → World → World
  stored c s = record s {
    db = record s.db { checkpoints = s.db.checkpoints ++ c ∷ [] };
    minted = suc s.minted;
    ticks = suc s.ticks;
  }

  stored-IsFresh :
      (c : TaskCheckpoint) (s : World)
      → c.checkpoint_id ≡ w.id_factory s.minted
      → IsInjective w.id_factory
      → IsFresh s
      → IsFresh (stored c s)
  stored-IsFresh c s same inj fresh = record {
    no_checkpoint = λ i h. rw (has_checkpoint_id-append (w.id_factory i) c s.db.checkpoints) (
        rw (fresh.no_checkpoint i (omega (arith, h)), same, other_id w.id_factory s.minted i inj h)
          refl);
    no_audit = λ i h. fresh.no_audit i (omega (arith, h));
  }

  -- What a step stores: with fresh ids, under the tenant's context and where the task has no
  -- checkpoint with its sequence number, it returns, and one checkpoint was added at the end.
  pub persist_step-ok :
      (bound : Option RequestContext) (task : Task) (t : TaskRunState) (s : World)
      → check_tenant bound task.tenant_id ≡ ok tt
      → IsInjective w.id_factory
      → IsFresh s
      → has_checkpoint task.task_id t.sequence s.db.checkpoints ≡ false
      → let after = (persist_step w bound task t s).1 in
        let c = step_checkpoint w bound task t (w.id_factory s.minted) (w.clock s.ticks) in
        ((persist_step w bound task t s).0 ≡ ok tt) × IsFresh after × Untouched (stored c s) after
  unfolding persist_step append_checkpoint
  persist_step-ok bound task t s chk inj fresh free =
      let c = step_checkpoint w bound task t (w.id_factory s.minted) (w.clock s.ticks) in
      let own_id = fresh.no_checkpoint s.minted (omega arith) in
      let (done, fresh') =
        audit-ok bound (task_to_context task) "task.node_completed" _ (stored c s) chk inj
          (stored-IsFresh c s refl inj fresh) in
      rw (chk, own_id, free)
        (done, fresh', audit-Untouched bound (task_to_context task) _ _ (stored c s))
