-- ===== src/Actions/Request.antt =====
-- actions/approvals.py, ApprovalStatus and ApprovalRequest.
use headofcontext.Prelude.{ℕ, String, Bool, true, false, Option}
use headofcontext.Prelude.Int.{ℤ}

pub data ApprovalStatus : Type 0 where
  pending approved rejected expired consumed : ApprovalStatus

abbrev pub status_eq : ApprovalStatus → ApprovalStatus → Bool
status_eq pending pending = true
status_eq approved approved = true
status_eq rejected rejected = true
status_eq expired expired = true
status_eq consumed consumed = true
status_eq _ _ = false

-- `str(status)`.
abbrev pub status_text : ApprovalStatus → String
status_text pending = "pending"
status_text approved = "approved"
status_text rejected = "rejected"
status_text expired = "expired"
status_text consumed = "consumed"

pub record ApprovalRequest : Type 0 where
  pub request_id : String
  pub subject : String
  pub actor : String
  pub delegation_depth : ℕ
  pub tool : String
  pub args_hash : String
  pub decision_id : String
  pub created_at : ℤ
  pub expires_at : ℤ
  pub status : ApprovalStatus
  pub resolved_by : Option String
  pub resolved_at : Option ℤ
  pub resolution_reason : Option String
  pub consumed_at : Option ℤ
  pub approval_reason : String
