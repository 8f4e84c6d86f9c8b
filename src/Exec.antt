-- ===== src/Exec.antt =====
-- Calls that change a state and may raise: what was written before an exception stays written, so
-- the state comes back beside the error as well.
use meta_agent.Errors.{Error, Result, ok, err}

abbrev pub Exec {ℓ} : Type ℓ → Type ℓ → Type ℓ
Exec S A = S → Result A × S

module _ {ℓ} {S A : Type ℓ} where
  abbrev pub pure : A → Exec S A
  pure a s = (ok a, s)

  abbrev pub raise : Error → Exec S A
  raise e s = (err e, s)

  abbrev pub lift : Result A → Exec S A
  lift r s = (r, s)

module _ {ℓ} {S A B : Type ℓ} where
  abbrev pub continue : Result A → (A → Exec S B) → Exec S B
  continue (err e) rest s = (err e, s)
  continue (ok a) rest s = rest a s

  infixl 10 ◌>>=◌
  abbrev pub ◌>>=◌ : Exec S A → (A → Exec S B) → Exec S B
  ◌>>=◌ first rest s = let (answer, after) = first s in continue answer rest after

  infixl 10 ◌>>◌
  abbrev pub ◌>>◌ : Exec S A → Exec S B → Exec S B
  first >> second = first >>= λ _. second

-- `try: m except: handler`, for every exception
module _ {ℓ} {S A : Type ℓ} where
  abbrev pub recover : Result A → (Error → Exec S A) → Exec S A
  recover (err e) handler s = handler e s
  recover (ok a) handler s = (ok a, s)

  abbrev pub catch : Exec S A → (Error → Exec S A) → Exec S A
  catch body handler s = let (answer, after) = body s in recover answer handler after
