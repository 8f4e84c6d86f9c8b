-- ===== src/Sweeper/Sweeps.antt =====
-- What a sweep of worker/expiry_sweeper.py writes.
use meta_agent.Common.{
  ℕ, suc, ◌+◌, ◌*◌, ◌≤◌, String, ◌≡◌, refl, sym, ap, ◌∙◌, ◌⊎◌, inl, inr, Bool, true, false, Option,
  none, List, [], ◌∷◌, ◌++◌, arith, if◌then◌else◌, length, length-take, All, map, ◌-◌, select, ltb,
  ◌&&◌,
}
use mathlib.Core.List.{append_assoc, append-nil}
use meta_agent.Errors.{Error, Result, ok, err}
use meta_agent.Context.{RequestContext, check_tenant}
use meta_agent.Task.{Task, is_awaiting}
use meta_agent.TaskRepo.Rows.{order_by}
use meta_agent.TaskRepo.{transition_from_awaiting_approval, list_awaiting_approval_older_than}
use meta_agent.Sweeper.{World, AuditEvent, append_audit, expiry_event, expire, sweep, run_once, day}

module _ (days batch : ℕ) (isoformat : ℕ → String) (ids : ℕ → String) (now : ℕ) where
  expire-unbound :
      (t : Task) (count : ℕ) (w : World)
      → expire days batch isoformat ids none now t count w ≡ (ok false, w)
  unfolding expire transition_from_awaiting_approval check_tenant
  expire-unbound t count w = refl

  sweep-unbound :
      (ts : List Task) (count : ℕ) (w : World)
      → sweep days batch isoformat ids none now ts count w ≡ (ok count, w)
  unfolding sweep
  sweep-unbound [] count w = refl
  sweep-unbound (t ∷ ts) count w = cc (expire-unbound t count w, sweep-unbound ts count w)

  -- With no request context bound, which is how a loop outside any request calls it, a sweep expires
  -- no task at all: it returns 0 and leaves both tables as they were, however many tasks are stale.
  pub unbound_sweep : (w : World) → run_once days batch isoformat ids none now w ≡ (ok 0, w)
  unfolding run_once
  unbound_sweep w = sweep-unbound _ 0 w

length-map : {A B : Type 0} (f : A → B) (xs : List A) → length (map f xs) ≡ length xs
length-map f [] = refl
length-map f (x ∷ xs) = ap suc (length-map f xs)

-- the audits that a sweep adds
abbrev pub IsExpiryAudit : ℕ → AuditEvent → Type 0
IsExpiryAudit now a = (a.action ≡ "task.expired") × (a.occurred_at ≡ now)

module _ (days batch : ℕ) (isoformat : ℕ → String) (ids : ℕ → String)
    (bound : Option RequestContext) (now : ℕ) where
  -- what one task adds to the audits: one event if it was expired, else none
  expire-audits :
      (t : Task) (count : ℕ) (w w' : World) (hit : Bool)
      → expire days batch isoformat ids bound now t count w ≡ (ok hit, w')
      → w'.audits ≡ (
          if hit
          then w.audits
            ++ expiry_event days batch isoformat ids bound now t (ids (2 * count + 1)) ∷ []
          else w.audits)
  unfolding expire append_audit check_tenant
  expire-audits t count w w' hit h = ground arith

  sweep-false :
      (t : Task) (ts : List Task) (count : ℕ) (w w1 : World)
      → expire days batch isoformat ids bound now t count w ≡ (ok false, w1)
      → sweep days batch isoformat ids bound now (t ∷ ts) count w
        ≡ sweep days batch isoformat ids bound now ts count w1
  unfolding sweep
  sweep-false t ts count w w1 h = cc h

  sweep-true :
      (t : Task) (ts : List Task) (count : ℕ) (w w1 : World)
      → expire days batch isoformat ids bound now t count w ≡ (ok true, w1)
      → sweep days batch isoformat ids bound now (t ∷ ts) count w
        ≡ sweep days batch isoformat ids bound now ts (suc count) w1
  unfolding sweep
  sweep-true t ts count w w1 h = cc h

  sweep-err :
      (t : Task) (ts : List Task) (count : ℕ) (w : World) (e : Error)
      → (expire days batch isoformat ids bound now t count w).0 ≡ err e
      → (sweep days batch isoformat ids bound now (t ∷ ts) count w).0 ≡ err e
  unfolding sweep
  sweep-err t ts count w e h = cc h

  Answer-cases : (r : Result Bool) → ((e : Error) × (r ≡ err e)) ⊎ ((r ≡ ok true) ⊎ (r ≡ ok false))
  Answer-cases (err e) = inl (e, refl)
  Answer-cases (ok true) = inr (inl refl)
  Answer-cases (ok false) = inr (inr refl)

  abbrev pub Swept : World → World → ℕ → ℕ → Type 0
  Swept w w' count most =
      (new : List AuditEvent) × (w'.audits ≡ w.audits ++ new)
      × (length new ≡ count)
      × All (IsExpiryAudit now) new
      × (count ≤ most)

  sweep-nil :
      (count n : ℕ) (w w' : World)
      → sweep days batch isoformat ids bound now [] count w ≡ (ok n, w')
      → (count ≡ n) × (w'.audits ≡ w.audits)
  unfolding sweep
  sweep-nil count n w w' h = (cc h, cc h)

  sweep-audits :
      (ts : List Task) (count n : ℕ) (w w' : World)
      → sweep days batch isoformat ids bound now ts count w ≡ (ok n, w')
      → (k : ℕ) × (n ≡ count + k) × Swept w w' k (length ts)
  sweep-audits [] count n w w' h =
      let (same_count, same_world) = sweep-nil count n w w' h in
      (0, omega arith, ([], same_world ∙ sym (append-nil w.audits), refl, tt, omega arith))
  sweep-audits (t ∷ ts) count n w w' h =
      let r = expire days batch isoformat ids bound now t count w in
      elim (Answer-cases r.0) [
        | inl (e, failed) ↦ absurd (cc (h, sweep-err t ts count w e failed))
        | inr (inr skipped) ↦
            let step : r ≡ (ok false, r.1) = ap (λ x. (x, r.1)) skipped in
            let (k, n_eq, (new, added, size, all, le)) =
              sweep-audits ts count n r.1 w' (sym (sweep-false t ts count w r.1 step) ∙ h) in
            (
              k,
              n_eq,
              (
                new,
                added ∙ ap (λ a. a ++ new) (expire-audits t count w r.1 false step),
                size,
                all,
                omega arith,
              ),
            )
        | inr (inl hit) ↦
            let step : r ≡ (ok true, r.1) = ap (λ x. (x, r.1)) hit in
            let (k, n_eq, (new, added, size, all, le)) =
              sweep-audits ts (suc count) n r.1 w' (sym (sweep-true t ts count w r.1 step) ∙ h) in
            let event = expiry_event days batch isoformat ids bound now t (ids (2 * count + 1)) in
            (
              suc k,
              omega (arith, n_eq),
              (
                event ∷ new,
                added
                    ∙ ap (λ a. a ++ new) (expire-audits t count w r.1 true step)
                    ∙ append_assoc w.audits (event ∷ []) new,
                omega (arith, size),
                ((unfold expiry_event in refl, unfold expiry_event in refl), all),
                omega (arith, le),
              ),
            )
      ]

  length-stale :
      (threshold : ℕ) (w : World)
      → length (list_awaiting_approval_older_than threshold batch w.tasks) ≤ batch
  unfolding list_awaiting_approval_older_than
  length-stale threshold w =
      let le = length-take batch (
        order_by (λ r. r.task.updated_at)
          (select (λ r. is_awaiting r.task.state && ltb r.task.updated_at threshold) w.tasks)) in
      rw length-map le

  -- A sweep that returns n has appended exactly n audit events after those that were there, each with
  -- the action "task.expired" and the time of the sweep, and n is at most the batch size.
  pub sweep_law :
      (n : ℕ) (w w' : World)
      → run_once days batch isoformat ids bound now w ≡ (ok n, w')
      → Swept w w' n batch
  unfolding run_once
  sweep_law n w w' h =
      let (k, n_eq, (new, added, size, all, le)) = sweep-audits _ 0 n w w' h in
      (
        new,
        added,
        omega (arith, size, n_eq),
        all,
        omega (arith, n_eq, le, length-stale (now - days * day) w),
      )
