-- ===== src/Breaker/Concurrent.antt =====
-- Concurrent calls of one key through infra/circuitbreaker/in_memory.py. The lock makes `_gate` and
-- `_record_outcome` atomic, and the protected functions run between them: an interleaving is a
-- sequence of such steps. Times are arbitrary here.
use meta_agent.Common.{
  ℕ, suc, ◌+◌, ◌≤◌, ◌≡◌, Bool, true, false, not, ◌||◌, [], ◌∷◌, ◌++◌, arith, length, Option,
  is_some,
}
use meta_agent.Breaker.{
  Config, Bucket, BreakerState, closed, open_, half_open, fresh, proceed, rejected, gate, prune,
  record_outcome,
}

-- the bucket, and how many plain calls and probes run
pub record Pool : Type 0 where
  pub bucket : Bucket
  pub calls : ℕ
  pub probes : ℕ

abbrev pub idle : Pool
idle = record { bucket = fresh; calls = 0; probes = 0 }

-- `allowed s`: a counted failure of a plain call may arrive while the breaker's state is `s`
module _ (c : Config) (allowed : BreakerState → Type 0) where
  pub data Step : Pool → Pool → Type 0 where
    enter :
        (p : Pool) (now : ℕ)
        → (gate c p.bucket now).1 ≡ proceed false
        → Step p (record p { bucket = (gate c p.bucket now).0; calls = suc p.calls })
    enter_probe :
        (p : Pool) (now : ℕ)
        → (gate c p.bucket now).1 ≡ proceed true
        → Step p (record p { bucket = (gate c p.bucket now).0; probes = suc p.probes })
    refuse :
        (p : Pool) (now : ℕ) (retry : Option ℕ)
        → (gate c p.bucket now).1 ≡ rejected retry
        → Step p (record p { bucket = (gate c p.bucket now).0 })
    leave :
        (p : Pool) (k now : ℕ) (success counted : Bool)
        → p.calls ≡ suc k
        → ((success || not counted) ≡ false → allowed p.bucket.state)
        → Step p
            (record p { bucket = record_outcome c p.bucket now success counted false; calls = k })
    leave_probe :
        (p : Pool) (k now : ℕ) (success counted : Bool)
        → p.probes ≡ suc k
        → Step p
            (record p { bucket = record_outcome c p.bucket now success counted true; probes = k })

  pub data Reach (p : Pool) : Pool → Type 0 where
    here : Reach p p
    next : {q r : Pool} → Reach p q → Step q r → Reach p r

-- how many probes a state stands for
abbrev pub probes_of : BreakerState → ℕ
probes_of closed = 0
probes_of open_ = 0
probes_of half_open = 1

pub record IsExclusive (p : Pool) : Type 0 where
  pub counted : p.probes ≡ probes_of p.bucket.state
  pub stamped : p.bucket.state ≡ open_ → is_some p.bucket.opened_at ≡ true

module _ (c : Config) where
  Step-IsExclusive : {p q : Pool} → Step c (λ s. s ≡ closed) p q → IsExclusive p → IsExclusive q
  unfolding gate record_outcome
  Step-IsExclusive (enter p now h) e = ground arith
  Step-IsExclusive (enter_probe p now h) e = ground arith
  Step-IsExclusive (refuse p now retry h) e = ground arith
  Step-IsExclusive (leave p k now success counted h a) e = ground arith
  Step-IsExclusive (leave_probe p k now success counted h) e = ground arith

  Reach-IsExclusive : {p q : Pool} → IsExclusive p → Reach c (λ s. s ≡ closed) p q → IsExclusive q
  Reach-IsExclusive e here = e
  Reach-IsExclusive e (next r s) = Step-IsExclusive s (Reach-IsExclusive e r)

-- an open bucket has its time of opening
abbrev pub is_stamped : BreakerState → Bucket → Bool
is_stamped closed b = true
is_stamped open_ b = is_some b.opened_at
is_stamped half_open b = true

-- As long as counted failures of plain calls arrive only while the breaker is closed, in every
-- interleaving from an idle breaker at most one probe runs, one runs exactly in the state
-- HALF_OPEN, and the `assert` on the time of opening holds.
pub one_probe :
    (c : Config) (p : Pool)
    → Reach c (λ s. s ≡ closed) idle p
    → (p.probes ≤ 1)
      × (p.probes ≡ probes_of p.bucket.state)
      × (is_stamped p.bucket.state p.bucket ≡ true)
one_probe c p r = let e = Reach-IsExclusive c {p = idle} (ground arith) r in ground (arith, e)

-- Without that condition it fails: whatever the configuration, from a pool in HALF_OPEN whose probe
-- still runs beside a plain call that began before the breaker opened, if that call's failure is
-- counted and fills the window, two probes can come to run at once.
pub second_probe :
    (c : Config) (p : Pool) (k now : ℕ)
    → p.bucket.state ≡ half_open
    → p.probes ≡ 1
    → p.calls ≡ suc k
    → c.failure_threshold ≤ length (prune c now (p.bucket.failures ++ now ∷ []))
    → (q : Pool) × Reach c (λ s. Unit {0}) p q × (q.probes ≡ 2)
unfolding gate record_outcome
second_probe c p k now h one more full =
    let q = record p { bucket = record_outcome c p.bucket now false true false; calls = k } in
    let later = now + c.cooldown in
    (
      record q { bucket = (gate c q.bucket later).0; probes = suc q.probes },
      next (next here (leave p k now false true more (λ _. tt)))
          (enter_probe q later (ground arith)),
      ground arith,
    )
