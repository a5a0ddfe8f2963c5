-- ===== src/Actions/Resolve/Laws.antt =====
-- What `resolve_request` asks before it decides, and the row that it leaves (actions/approvals.py).
use headofcontext.Prelude.{
  ◌≡◌, String, Bool, true, some, ◌==◌, lookup, insert, eq_iff, inl, inr, Option-cases, arith,
  if◌then◌else◌,
}
use headofcontext.Prelude.Int.{ℤ, ◌≤ℤ◌}
use headofcontext.Core.Errors.{ok, Result-cases}
use headofcontext.Actions.Request.{ApprovalRequest, ApprovalStatus, pending, approved, rejected}
use headofcontext.Actions.Store.{get, update, transition}
use headofcontext.Actions.Resolve.{
  require_user, approver_refusal, refuse_approver, authorize_approver, get_request, expire_overdue,
  resolve_request,
}
use headofcontext.World.{World, Env, ◌>>=◌, record_event}

module _ {Args : Type 0} (env : Env Args) where
  abbrev pub decided : Bool → ApprovalStatus
  decided is_approved = if is_approved then approved else rejected

  -- The row that the resolution writes: the request with its answer, and nothing else changed.
  abbrev pub resolved_row : Bool → String → ℤ → String → ApprovalRequest → ApprovalRequest
  resolved_row is_approved approver at reason r = record r {
    status = decided is_approved;
    resolved_by = some approver;
    resolved_at = some at;
    resolution_reason = some reason;
  }

  expire_overdue-pending :
      (at : ℤ) (r r' : ApprovalRequest) (w : World)
      → (expire_overdue env at r w).0 ≡ ok r'
      → r'.status ≡ pending
      → (r.status ≡ pending) × (at ≤ℤ r.expires_at) × (expire_overdue env at r w ≡ (ok r, w))
  unfolding expire_overdue ◌>>=◌ update
  expire_overdue-pending at r r' w h p = ground arith

  overdue_raises :
      (at : ℤ) (r r' : ApprovalRequest) (request_id approver : String) (is_approved : Bool)
      (reason : String) (own : Bool) (w : World) {x : ApprovalRequest}
      → lookup request_id w.approvals ≡ some r
      → (expire_overdue env at r w).0 ≡ ok r'
      → (resolve_request env at request_id approver is_approved reason own w).0 ≡ ok x
      → (require_user approver ≡ ok tt) × (r'.status ≡ pending)
  unfolding resolve_request get_request get ◌>>=◌
  overdue_raises at r r' request_id approver is_approved reason own w found stepped h = ground arith

  resolution_writes :
      (at : ℤ) (r : ApprovalRequest) (request_id approver : String) (is_approved : Bool)
      (reason : String) (own : Bool) (w : World) {x : ApprovalRequest}
      → lookup request_id w.approvals ≡ some r
      → require_user approver ≡ ok tt
      → r.status ≡ pending
      → expire_overdue env at r w ≡ (ok r, w)
      → (resolve_request env at request_id approver is_approved reason own w).0 ≡ ok x
      → ((approver ≡ r.subject) → own ≡ true)
        × (x ≡ resolved_row is_approved approver at reason r)
        × ((resolve_request env at request_id approver is_approved reason own w).1.approvals
            ≡ insert request_id (resolved_row is_approved approver at reason r) w.approvals)
  unfolding resolve_request get_request get transition record_event ◌>>=◌
  resolution_writes at r request_id approver is_approved reason own w found user waiting stepped h =
      (ground (arith, eq_iff approver r.subject), ground arith, ground arith)

  -- The row stood, PENDING and in time, under this id; it is now resolved, and it is the answer.
  pub record Resolved (at : ℤ) (request_id approver : String) (is_approved : Bool) (reason : String)
      (own : Bool) (w w' : World) (x r : ApprovalRequest) : Type 0 where
    pub found : lookup request_id w.approvals ≡ some r
    pub waiting : r.status ≡ pending
    pub in_time : at ≤ℤ r.expires_at
    pub not_own : (approver ≡ r.subject) → own ≡ true
    pub answer : x ≡ resolved_row is_approved approver at reason r
    pub written :
        w'.approvals ≡ insert request_id (resolved_row is_approved approver at reason r) w.approvals

  Resolved-found :
      (at : ℤ) (r : ApprovalRequest) (request_id approver : String) (is_approved : Bool)
      (reason : String) (own : Bool) (w : World) {x : ApprovalRequest}
      → lookup request_id w.approvals ≡ some r
      → (resolve_request env at request_id approver is_approved reason own w).0 ≡ ok x
      → Resolved at request_id approver is_approved reason own w
          (resolve_request env at request_id approver is_approved reason own w).1
          x
          r
  unfolding resolve_request get_request get ◌>>=◌
  Resolved-found at r request_id approver is_approved reason own w {x} found h =
      elim (Result-cases (expire_overdue env at r w).0) [
        | inr (e, bad) ↦ absurd (ground arith)
        | inl (r', stepped) ↦
            let (user, still) =
              overdue_raises at r r' request_id approver is_approved reason own w {x = x} found
                stepped h in
            let (waiting, in_time, step) = expire_overdue-pending at r r' w stepped still in
            let (not_own, answer, written) =
              resolution_writes at r request_id approver is_approved reason own w {x = x} found user
                waiting step h in
            record {
              found = found;
              waiting = waiting;
              in_time = in_time;
              not_own = not_own;
              answer = answer;
              written = written;
            }
      ]

  pub resolve_request-Resolved :
      (at : ℤ) (request_id approver : String) (is_approved : Bool) (reason : String) (own : Bool)
      (w : World) {x : ApprovalRequest}
      → (resolve_request env at request_id approver is_approved reason own w).0 ≡ ok x
      → (r : ApprovalRequest) × Resolved at request_id approver is_approved reason own w
          (resolve_request env at request_id approver is_approved reason own w).1
          x
          r
  unfolding resolve_request get_request get ◌>>=◌
  resolve_request-Resolved at request_id approver is_approved reason own w {x} h =
      elim (Option-cases (lookup request_id w.approvals)) [
        | inl missing ↦ absurd (ground arith)
        | inr (r, found) ↦
            (r, Resolved-found at r request_id approver is_approved reason own w {x = x} found h)
      ]

  -- An approver is let through, in the same state, if the engine names them one for the tool, or if
  -- they are the subject and may approve themselves.
  pub authorize_approver-ok :
      (at : ℤ) (r : ApprovalRequest) (approver : String) (own : Bool) (w : World)
      → (authorize_approver env at r approver own w).0 ≡ ok tt
      → ((authorize_approver env at r approver own w).1 ≡ w)
        × ((if approver == r.subject then ok own else env.check w approver "approver" r.tool)
            ≡ ok true)
  unfolding authorize_approver approver_refusal refuse_approver record_event ◌>>=◌
  authorize_approver-ok at r approver own w h = (ground arith, ground arith)
