-- ===== src/Actions/Resolve.antt =====
-- actions/approvals.py, authorize_approver and resolve_request: who may decide on a request, and the
-- decision itself.
pub mod Laws
use headofcontext.Prelude.{
  String, Bool, true, false, ◌&&◌, ◌||◌, not, Option, none, some, List, [], ◌∷◌, ◌==◌,
  if◌then◌else◌,
}
use headofcontext.Prelude.Int.{ℤ, ltb_ℤ}
use headofcontext.Core.Errors.{
  Exception, hoc, other, HocError, Result, ok, err, raised, raised_with, approval_error,
  is_invariant_violation,
}
use headofcontext.Core.Refs.{validate_ref, is_ref}
use headofcontext.Core.Events.{AuditEvent, EventKind, approval_resolved, ◌+++◌}
use headofcontext.Actions.Request.{
  ApprovalRequest, ApprovalStatus, pending, approved, rejected, expired, status_eq, status_text,
}
use headofcontext.Actions.Store.{get, update, transition, with_status}
use headofcontext.World.{World, Env, Exec, pure, lift, gets, ◌>>=◌, ◌>>◌, uuid4, record_event}

-- `validate_ref(approver, "user")`, its InvariantViolation turned into an ApprovalError.
unfoldable pub require_user : String → Result (Unit {0})
require_user approver = if is_ref approver "user" then ok tt else raised approval_error

-- `str(status).upper()` of the two statuses that a resolution sets.
abbrev pub status_upper : ApprovalStatus → String
status_upper approved = "APPROVED"
status_upper rejected = "REJECTED"
status_upper pending = "PENDING"
status_upper expired = "EXPIRED"
status_upper ApprovalStatus.consumed = "CONSUMED"

-- An event about a request.
abbrev pub request_event :
    EventKind → ℤ → ApprovalRequest → String → String → String → String → AuditEvent
request_event kind timestamp request actor outcome reason event_id = record {
  kind = kind;
  timestamp = timestamp;
  subject = request.subject;
  actor = actor;
  delegation_depth = request.delegation_depth;
  action = "approval:" +++ request.request_id;
  resource = request.tool;
  outcome = outcome;
  reason = reason;
  engine_latency_ms = 0;
  token_fingerprint = none;
  args_hash = some request.args_hash;
  decision_id = some request.decision_id;
  event_id = event_id;
}

-- The reason of a refusal by the engine's answer, if it refuses.
abbrev pub refusal : Result Bool → Option String
refusal (ok true) = none
refusal (ok false) = some "approver_not_authorized"
refusal (err (hoc e)) = some e.reason
refusal (err other) = some "engine_unavailable"

-- `reason or str(status)`.
abbrev pub or_status : String → ApprovalStatus → String
or_status reason status = if reason == "" then status_text status else reason

module _ {Args : Type 0} (env : Env Args) where
  -- Why `approver` may not resolve the request. The gate always passes an engine.
  unfoldable pub approver_refusal : ApprovalRequest → String → Bool → Exec (Option String)
  approver_refusal request approver allow_self_approval =
      if approver == request.subject
      then pure (if allow_self_approval then none else some "self_approval_disabled")
      else gets (λ w. refusal (env.check w approver "approver" request.tool))

  -- Journal the refusal and raise.
  unfoldable pub refuse_approver : ℤ → ApprovalRequest → String → Option String → Exec (Unit {0})
  refuse_approver now request approver none = pure tt
  refuse_approver now request approver (some reason) = do
    event_id ← uuid4 env
    record_event env
        (request_event approval_resolved now request approver "REFUSED" reason event_id)
    lift (raised_with approval_error reason)

  unfoldable pub authorize_approver : ℤ → ApprovalRequest → String → Bool → Exec (Unit {0})
  authorize_approver now request approver allow_self_approval = do
    lift (require_user approver)
    reason ← approver_refusal request approver allow_self_approval
    refuse_approver now request approver reason

  -- `store.get`, and the raise if there is no such request.
  unfoldable pub get_request : String → Exec ApprovalRequest
  get_request request_id = do
    found ← get request_id
    lift (elim found [ none ↦ raised approval_error | some r ↦ ok r ])

  -- The write that turns an overdue PENDING request into an EXPIRED one.
  unfoldable pub expire_overdue : ℤ → ApprovalRequest → Exec ApprovalRequest
  expire_overdue now request =
      if status_eq request.status pending && ltb_ℤ request.expires_at now
      then update (record request { status = expired })
        >> pure (record request { status = expired })
      else pure request

  -- What a resolution writes.
  abbrev pub resolution : String → ℤ → String → ApprovalRequest → ApprovalRequest
  resolution approver now reason r = record r {
    resolved_by = some approver;
    resolved_at = some now;
    resolution_reason = some reason;
  }

  unfoldable pub resolve_request : ℤ → String → String → Bool → String → Bool → Exec ApprovalRequest
  resolve_request now request_id approver is_approved reason allow_self_approval = do
    lift (require_user approver)
    found ← get_request request_id
    request ← expire_overdue now found
    lift (if status_eq request.status pending then ok tt else raised approval_error)
    lift (
        if approver == request.subject && not allow_self_approval
        then raised approval_error
        else ok tt)
    let status : ApprovalStatus = if is_approved then approved else rejected
    moved ← transition request_id (pending ∷ []) status (resolution approver now reason)
    resolved ←
        lift
          (elim moved [ none ↦ raised_with approval_error "approval_not_pending" | some r ↦ ok r ])
    event_id ← uuid4 env
    record_event env (
        request_event approval_resolved now request approver (status_upper status)
          (or_status reason status) event_id)
    pure resolved
