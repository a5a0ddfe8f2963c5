-- ===== src/Tokens/Mandate.antt =====
-- tokens/mandates.py, MandateStatus and Mandate.
use headofcontext.Prelude.{String, Bool, true, false, Option}
use headofcontext.Prelude.Int.{ℤ}
use headofcontext.Core.Events.{◌+++◌}
use headofcontext.Core.Scope.{Scope}

pub data MandateStatus : Type 0 where
  active revoked expired : MandateStatus

abbrev pub is_active : MandateStatus → Bool
is_active active = true
is_active _ = false

pub record Mandate : Type 0 where
  pub mandate_id : String
  pub subject : String
  pub agent : String
  pub scope : Scope
  pub created_at : ℤ
  pub expires_at : ℤ
  pub max_token_ttl : ℤ
  pub created_by : String
  pub status : MandateStatus
  pub revoked_at : Option ℤ
  pub revocation_reason : Option String

-- tokens/biscuit/service.py, mandate_revocation_id.
abbrev pub mandate_revocation_id : String → String
mandate_revocation_id mandate_id = "mandate:" +++ mandate_id

abbrev pub revocation_id : Mandate → String
revocation_id m = mandate_revocation_id m.mandate_id
