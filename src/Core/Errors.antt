-- ===== src/Core/Errors.antt =====
-- core/errors.py: the classes of errors, their machine-readable reasons and what `except` catches.
-- A message is only for people and is left out.
use headofcontext.Prelude.{String, Bool, true, false, ◌≡◌, ◌⊎◌, inl, inr, refl}

-- The subclasses of HocError, those that other packages declare included.
pub data ErrorClass : Type 0 where
  hoc_error unavailable configuration_error invariant_violation scope_escalation : ErrorClass
  invalid_resource engine_unavailable connector_stale token_invalid token_revoked : ErrorClass
  identity_error audit_unavailable memory_denied mandate_denied action_denied : ErrorClass
  approval_error approval_store_unavailable mandate_store_unavailable : ErrorClass
  ledger_unavailable approval_channel_error : ErrorClass

-- The class attribute `reason`, inherited where a class does not set it.
abbrev pub default_reason : ErrorClass → String
default_reason hoc_error = "error"
default_reason unavailable = "unavailable"
default_reason configuration_error = "configuration_error"
default_reason invariant_violation = "invariant_violation"
default_reason scope_escalation = "scope_escalation"
default_reason invalid_resource = "invalid_resource"
default_reason engine_unavailable = "engine_unavailable"
default_reason connector_stale = "connector_stale"
default_reason token_invalid = "token_invalid"
default_reason token_revoked = "token_revoked"
default_reason identity_error = "identity_error"
default_reason audit_unavailable = "audit_unavailable"
default_reason memory_denied = "memory_denied"
default_reason mandate_denied = "mandate_denied"
default_reason action_denied = "action_denied"
default_reason approval_error = "approval_error"
default_reason approval_store_unavailable = "approval_store_unavailable"
default_reason mandate_store_unavailable = "mandate_store_unavailable"
default_reason ledger_unavailable = "ledger_unavailable"
default_reason approval_channel_error = "approval_channel_failed"

-- `except InvariantViolation` catches the class and its two subclasses.
abbrev pub is_invariant_violation : ErrorClass → Bool
is_invariant_violation invariant_violation = true
is_invariant_violation scope_escalation = true
is_invariant_violation invalid_resource = true
is_invariant_violation _ = false

pub record HocError : Type 0 where
  pub class : ErrorClass
  pub reason : String

-- `other` is any exception that is no HocError.
pub data Exception : Type 0 where
  hoc : HocError → Exception
  other : Exception

pub data Result {ℓ} (A : Type ℓ) : Type ℓ where
  ok : A → Result A
  err : Exception → Result A

-- `raise C(...)` and `raise C(..., reason=r)`.
abbrev pub raised {ℓ} : {A : Type ℓ} → ErrorClass → Result A
raised c = err (hoc (record { class = c; reason = default_reason c }))

abbrev pub raised_with {ℓ} : {A : Type ℓ} → ErrorClass → String → Result A
raised_with c r = err (hoc (record { class = c; reason = r }))

infixl 5 ◌>>=◌ ◌>>◌
abbrev pub ◌>>=◌ {ℓ κ} : {A : Type ℓ} {B : Type κ} → Result A → (A → Result B) → Result B
ok a >>= f = f a
err e >>= f = err e

abbrev pub ◌>>◌ {ℓ κ} : {A : Type ℓ} {B : Type κ} → Result A → Result B → Result B
m >> k = m >>= λ _. k

pub Result-cases {ℓ} :
    {A : Type ℓ} (r : Result A) → ((a : A) × (r ≡ ok a)) ⊎ ((e : Exception) × (r ≡ err e))
Result-cases (ok a) = inl (a, refl)
Result-cases (err e) = inr (e, refl)
