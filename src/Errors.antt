-- ===== src/Errors.antt =====
-- core/domain/errors.py, and the exceptions that the modelled code raises or tells apart.
-- Texts of messages are kept only where the code stores them.
use mathlib.Core.Bool.{Bool, true, false}
use mathlib.Core.Logic.{◌⊎◌, inl, inr}
use Prim.Native.Nat.{ℕ}
use Prim.Native.String.{String}
use mathlib.Core.Option.{Option, none, some}
use mathlib.Core.Path.{◌≡◌, refl}

pub data ErrorCategory : Type 0 where
  transient external permission validation logic user_cancelled : ErrorCategory

-- `failure` is any exception of code that is not modelled, with its text; an exception whose fields the
-- code reads carries them.
pub data Error : Type 0 where
  missing_context tenant_isolation illegal_transition unique_violation graph_error : Error
  value_error key_error overflow_error unicode_encode_error permission_timeout
        not_awaiting_approval :
      Error
  failure : String → Error
  workspace_error tool_error : String → Error
  budget_backend limiter_backend breaker_backend llm_transient llm_invalid_request llm_auth : Error
  budget_exceeded : ℕ → Option ℕ → Error
  rate_limited : Option ℕ → Error
  breaker_open : String → Option ℕ → Error

-- AgentError.retryable
pub retryable : ErrorCategory → Bool
retryable transient = true
retryable _ = false

-- what a fallible call returns, or the exception that it raises
pub data Result {ℓ} (A : Type ℓ) : Type ℓ where
  ok : A → Result A
  err : Error → Result A

-- a chain of fallible calls: the first exception ends it
infixl 10 ◌>>=◌
abbrev pub ◌>>=◌ {ℓ κ} : {A : Type ℓ} {B : Type κ} → Result A → (A → Result B) → Result B
err e >>= rest = err e
ok a >>= rest = rest a

infixl 10 ◌>>◌
abbrev pub ◌>>◌ {ℓ κ} : {A : Type ℓ} {B : Type κ} → Result A → Result B → Result B
first >> second = first >>= λ _. second

-- `if not condition: raise e`
abbrev pub require : Bool → Error → Result (Unit {0})
require true e = ok tt
require false e = err e

-- `if x is None: raise e`
abbrev pub expect {ℓ} : {A : Type ℓ} → Option A → Error → Result A
expect none e = err e
expect (some a) e = ok a

-- what a chain that returned has returned on the way
pub >>=-ok {ℓ κ} :
    {A : Type ℓ} {B : Type κ} (first : Result A) (rest : A → Result B) {b : B}
    → (first >>= rest) ≡ ok b
    → (a : A) × (first ≡ ok a) × (rest a ≡ ok b)
>>=-ok (err e) rest h = cc
>>=-ok (ok a) rest h = (a, refl, h)

pub Result-cases {ℓ} :
    {A : Type ℓ} (r : Result A) → ((e : Error) × (r ≡ err e)) ⊎ ((a : A) × (r ≡ ok a))
Result-cases (err e) = inl (e, refl)
Result-cases (ok a) = inr (a, refl)
