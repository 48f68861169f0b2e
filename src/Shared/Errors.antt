-- ===== src/Shared/Errors.antt =====
-- The error contract (src/leanlm/shared/errors.py): records, and exceptions as values.
use leanlm.Common.{String, ◌≡◌, refl, ◌⊎◌, inl, inr, Option, none, some}

pub data ErrorCategory : Type 0 where
  input runtime resource validation packaging contract trust configuration : ErrorCategory

pub data Severity : Type 0 where
  info warning error critical : Severity

-- The free-form `details` are left out.
pub record ErrorRecord : Type 0 where
  pub code : String
  pub category : ErrorCategory
  pub severity : Severity
  pub message : String
  pub capability : String
  pub stage : String
  pub recommended_action : String

-- What a Python call may raise: `LeanLMError` carries a record, all else is foreign to it.
pub data Exception : Type 0 where
  leanlm_error : ErrorRecord → Exception
  value_error : String → Exception
  type_error : String → Exception
  unexpected : String → Exception

pub data Result {ℓ} (A : Type ℓ) : Type ℓ where
  ok : A → Result A
  raise : Exception → Result A

infixl 5 ◌>>=◌ ◌>>◌
abbrev pub ◌>>=◌ {ℓ κ} : {A : Type ℓ} {B : Type κ} → Result A → (A → Result B) → Result B
ok a >>= f = f a
raise e >>= f = raise e

abbrev pub ◌>>◌ {ℓ} : {B : Type ℓ} → Result (Unit {0}) → Result B → Result B
m >> k = m >>= λ _. k

-- `contract_error` and `input_error`, with the keyword arguments that callers give.
abbrev pub contract_error : String → String → String → String → String → Exception
contract_error code message capability stage action = leanlm_error (record {
  code = code;
  category = contract;
  severity = error;
  message = message;
  capability = capability;
  stage = stage;
  recommended_action = action;
})

abbrev pub input_error : String → String → String → String → String → Exception
input_error code message capability stage action = leanlm_error (record {
  code = code;
  category = input;
  severity = error;
  message = message;
  capability = capability;
  stage = stage;
  recommended_action = action;
})

pub Result-cases {ℓ} :
    {A : Type ℓ} (r : Result A) → ((a : A) × (r ≡ ok a)) ⊎ ((e : Exception) × (r ≡ raise e))
Result-cases (ok a) = inl (a, refl)
Result-cases (raise e) = inr (e, refl)

-- A statement about a branch on a result holds if it holds on both cases.
pub Result-ind {ℓ κ μ} :
    {A : Type ℓ} {B : Type κ} (Q : B → Type μ) (r : Result A) {f : A → B} {g : Exception → B}
    → ((a : A) → r ≡ ok a → Q (f a))
    → ((e : Exception) → r ≡ raise e → Q (g e))
    → Q (elim r [ ok a ↦ f a | raise e ↦ g e ])
Result-ind Q (ok a) qf qg = qf a refl
Result-ind Q (raise e) qf qg = qg e refl

pub Option-ind {ℓ κ μ} :
    {A : Type ℓ} {B : Type κ} (Q : B → Type μ) (o : Option A) {f : A → B} {b : B}
    → ((a : A) → o ≡ some a → Q (f a))
    → (o ≡ none → Q b)
    → Q (elim o [ none ↦ b | some a ↦ f a ])
Option-ind Q (some a) qf qg = qf a refl
Option-ind Q none qf qg = qg refl

pub bind-ind {ℓ κ μ} :
    {A : Type ℓ} {B : Type κ} (Q : Result B → Type μ) (r : Result A) {f : A → Result B}
    → ((a : A) → r ≡ ok a → Q (f a))
    → ((e : Exception) → r ≡ raise e → Q (raise e))
    → Q (r >>= f)
bind-ind Q (ok a) qf qe = qf a refl
bind-ind Q (raise e) qf qe = qe e refl
