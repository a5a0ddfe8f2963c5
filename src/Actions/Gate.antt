-- ===== src/Actions/Gate.antt =====
-- actions/gate.py: authorize a tool call, park it for approval, redeem an approval.
pub mod Resolved
pub mod Stepwise
pub mod Once
pub mod Redeem
pub mod Parked
use headofcontext.Prelude.{
  ℕ, String, Bool, true, false, ◌&&◌, ◌||◌, not, Option, none, some, List, [], ◌∷◌, ◌==◌, nat_eq,
  map, or_default, or_text, is_empty, if◌then◌else◌,
}
use headofcontext.Prelude.Int.{ℤ, ltb_ℤ, ◌+ℤ◌}
use headofcontext.Core.Errors.{
  Exception, hoc, other, HocError, ErrorClass, Result, ok, err, raised, approval_channel_error,
  engine_unavailable,
}
use headofcontext.Core.Refs.{validate_ref, validate_resource_pattern}
use headofcontext.Core.Chain.{PrincipalChain, depth}
use headofcontext.Core.Decision.{
  Outcome, deny, is_allow, is_require_approval, Decision, DecisionContext, invoke,
}
use headofcontext.Core.Events.{
  from_decision, EventKind, approval_requested, approval_notify_failed, approval_consumed,
}
use headofcontext.Core.Decider.{denied, decide, conclude}
use headofcontext.Actions.Request.{
  ApprovalRequest, ApprovalStatus, pending, approved, expired, consumed, status_eq,
}
use headofcontext.Actions.Store.{create, get, transition, consume, list_pending}
use headofcontext.Actions.Resolve.{request_event, authorize_approver, resolve_request, get_request}
use headofcontext.World.{World, Env, Exec, pure, lift, gets, ◌>>=◌, ◌>>◌, now, uuid4, record_event}

-- The approval channels' `notify`, which may raise; the name is for the log.
abbrev pub Channel : Type 0
Channel = ApprovalRequest → Result (Unit {0})

-- The parameters of `ActionGate.__init__`.
pub record Settings : Type 0 where
  pub ttl : ℤ
  pub allow_self_approval : Bool
  pub channels : List Channel

pub record GateResult : Type 0 where
  pub decision : Decision
  pub approval : Option ApprovalRequest

-- `except ApprovalChannelError`.
abbrev pub is_channel_error : ErrorClass → Bool
is_channel_error approval_channel_error = true
is_channel_error _ = false

module _ {Args : Type 0} (env : Env Args) (settings : Settings) where
  -- `_event`, with the clock's reading of its own.
  unfoldable pub event : EventKind → ApprovalRequest → String → String → Exec (Unit {0})
  event kind request outcome reason = do
    timestamp ← now env
    event_id ← uuid4 env
    record_event env (request_event kind timestamp request request.actor outcome reason event_id)

  -- What one channel's answer leads to: a channel's own error is journaled, any other goes on.
  unfoldable pub notified : ApprovalRequest → Result (Unit {0}) → Exec (Unit {0})
  notified request (ok u) = pure tt
  notified request (err other) = lift (err other)
  notified request (err (hoc e)) =
      if is_channel_error e.class
      then event approval_notify_failed request "PENDING" e.reason
      else lift (err (hoc e))

  unfoldable pub notify : List Channel → ApprovalRequest → Exec (Unit {0})
  notify [] request = pure tt
  notify (channel ∷ rest) request = do notified request (channel request); notify rest request

  -- The request that `gate` stores.
  abbrev pub parked : PrincipalChain → String → Args → Decision → String → ℤ → ApprovalRequest
  parked chain tool args decision request_id now = record {
    request_id = request_id;
    subject = chain.subject;
    actor = chain.actor;
    delegation_depth = depth chain;
    tool = tool;
    args_hash = env.hash_json args;
    decision_id = decision.decision_id;
    created_at = now;
    expires_at = now +ℤ settings.ttl;
    status = pending;
    resolved_by = none;
    resolved_at = none;
    resolution_reason = none;
    consumed_at = none;
    approval_reason = decision.reason;
  }

  unfoldable pub park : PrincipalChain → String → Args → Decision → Exec GateResult
  park chain tool args decision = do
    created_at ← now env
    request_id ← uuid4 env
    let request : ApprovalRequest = parked chain tool args decision request_id created_at
    create request
    event approval_requested request "PENDING" decision.reason
    notify settings.channels request
    pure (record { decision = decision; approval = some request })

  unfoldable pub gate : PrincipalChain → String → Option Args → Exec GateResult
  gate chain tool args = do
    lift (validate_ref tool "tool")
    let call_args = or_default args env.no_args
    decision ← decide env chain invoke tool (some call_args) none
    if is_require_approval decision.outcome
        then park chain tool call_args decision
        else pure (record { decision = decision; approval = none })

  unfoldable pub resolve : String → String → Bool → String → Exec ApprovalRequest
  resolve request_id approver is_approved reason = do
    at ← now env
    request ← get_request env request_id
    authorize_approver env at request approver settings.allow_self_approval
    resolve_request env at request_id approver is_approved reason settings.allow_self_approval

  -- `_deny`: a denial that is journaled like a decision.
  unfoldable pub deny_call : PrincipalChain → String → Args → String → Exec Decision
  deny_call chain tool args reason = conclude env chain invoke tool [] (some args) (denied reason 0)

  -- `_mismatch`: why the request does not answer for this call.
  unfoldable pub mismatch : ApprovalRequest → PrincipalChain → String → Args → Option String
  mismatch request chain tool args =
      if status_eq request.status consumed
      then some "approval_consumed"
      else if status_eq request.status expired
      then some "approval_expired"
      else if not (status_eq request.status approved)
      then some "approval_not_approved"
      else if not (request.tool == tool)
      then some "approval_tool_mismatch"
      else if not (
          request.subject == chain.subject
          && request.actor == chain.actor
          && nat_eq request.delegation_depth (depth chain))
      then some "approval_chain_mismatch"
      else if not (request.args_hash == env.hash_json args)
      then some "approval_args_mismatch"
      else none

  -- `expired or await get(...) or request`.
  unfoldable pub refetch : ApprovalRequest → Option ApprovalRequest → Exec ApprovalRequest
  refetch request (some moved) = pure moved
  refetch request none = do found ← get request.request_id; pure (or_default found request)

  unfoldable pub expire_if_needed : ApprovalRequest → Exec ApprovalRequest
  expire_if_needed request =
      if status_eq request.status pending || status_eq request.status approved
      then (now env >>= λ at.
          if ltb_ℤ request.expires_at at
          then (transition request.request_id (pending ∷ approved ∷ []) expired (λ r. r)
              >>= refetch request)
          else pure request)
      else pure request

  -- The decision after the claim, which carries the approval in its context.
  unfoldable pub after_claim :
      PrincipalChain → ApprovalRequest → String → Args → Option ApprovalRequest → Exec Decision
  after_claim chain request target args none = deny_call chain target args "approval_consumed"
  after_claim chain request target args (some claimed) = do
    decision ←
        decide env chain invoke target (some args)
          (some (record { approval_id = some request.request_id }))
    event approval_consumed claimed "CONSUMED"
        (if is_allow decision.outcome then "redeemed" else decision.reason)
    pure decision

  -- The claim of the request, before any decision.
  unfoldable pub claim : PrincipalChain → ApprovalRequest → String → Args → Exec Decision
  claim chain request target args = do
    at ← now env
    taken ← consume request.request_id at
    after_claim chain request target args taken

  -- What `redeem` does by the mismatch, if there is one.
  unfoldable pub answer_call :
      PrincipalChain → ApprovalRequest → String → Args → Option String → Exec Decision
  answer_call chain request target args (some reason) = deny_call chain target args reason
  answer_call chain request target args none = claim chain request target args

  unfoldable pub redeem_found :
      PrincipalChain → ApprovalRequest → Option String → Args → Exec Decision
  redeem_found chain found tool args = do
    let target = or_text tool found.tool
    lift (validate_resource_pattern target)
    request ← expire_if_needed found
    answer_call chain request target args (mismatch request chain target args)

  unfoldable pub redeem_request :
      PrincipalChain → Option String → Args → Option ApprovalRequest → Exec Decision
  redeem_request chain tool args none =
      deny_call chain (or_text tool "tool:unknown") args "approval_unknown"
  redeem_request chain tool args (some request) = redeem_found chain request tool args

  unfoldable pub redeem : PrincipalChain → String → Option Args → Option String → Exec Decision
  redeem chain request_id args tool = do
    let call_args = or_default args env.no_args
    found ← get request_id
    redeem_request chain tool call_args found

  -- `zip(pending, related, strict=True)` under the comprehension's test.
  unfoldable pub listed_for :
      String → List ApprovalRequest → List Bool → Result (List ApprovalRequest)
  listed_for user [] [] = ok []
  listed_for user [] (b ∷ bs) = err other
  listed_for user (r ∷ rs) [] = err other
  listed_for user (r ∷ rs) (b ∷ bs) =
      let later = listed_for user rs bs in
      elim later [ err e ↦ err e | ok l ↦ ok (if b || r.subject == user then r ∷ l else l) ]

  -- A HocError of the engine goes on, any other exception becomes EngineUnavailable.
  abbrev pub rethrow : Result (List Bool) → Result (List Bool)
  rethrow (ok related) = ok related
  rethrow (err (hoc e)) = err (hoc e)
  rethrow (err other) = raised engine_unavailable

  unfoldable pub pending_for : String → Exec (List ApprovalRequest)
  pending_for user = do
    lift (validate_ref user "user")
    waiting ← list_pending none
    if is_empty waiting then pure [] else do
      answer ← gets (λ w. env.batch_check w user (map (λ r. ("approver", r.tool)) waiting))
      related ← lift (rethrow answer)
      lift (listed_for user waiting related)
