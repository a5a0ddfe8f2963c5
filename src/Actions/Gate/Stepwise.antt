-- ===== src/Actions/Gate/Stepwise.antt =====
-- Every operation of actions/gate.py changes the approvals by store steps alone.
use headofcontext.Prelude.{String, Bool, Option, none, some, List, [], ◌∷◌, or_default, or_text}
use headofcontext.Prelude.Int.{ℤ}
use headofcontext.Core.Errors.{hoc, other, Result, ok, err}
use headofcontext.Core.Chain.{PrincipalChain}
use headofcontext.Core.Decision.{Decision, allow, invoke, is_allow, is_require_approval}
use headofcontext.Core.Decider.{decide}
use headofcontext.Core.Decider.Total.{decide-Logs}
use headofcontext.Core.Refs.{validate_resource_pattern}
use headofcontext.Actions.Request.{ApprovalRequest, ApprovalStatus, pending}
use headofcontext.Actions.Store.{get, transition, list_pending}
use headofcontext.Actions.Store.Laws.{StoreSteps}
use headofcontext.Actions.Store.Steps.{
  Stepwise, Stepwise-of_KeepsStores, Stepwise-pure, Stepwise-lift, Stepwise-if, Stepwise-bind,
  Stepwise-create, Stepwise-expire, Stepwise-resolve, Stepwise-expire_live, Stepwise-consume,
}
use headofcontext.Actions.Resolve.{
  approver_refusal, refuse_approver, authorize_approver, get_request, expire_overdue, resolution,
  resolve_request,
}
use headofcontext.Actions.Gate.{
  Settings, Channel, GateResult, event, is_channel_error, notified, notify, parked, park, gate,
  resolve, mismatch, refetch, expire_if_needed, claim, answer_call, redeem_found, redeem_request,
  redeem, pending_for,
}
use headofcontext.Actions.Gate.Redeem.{after_claim-KeepsStores, deny_call-Logs, event-Logs}
use headofcontext.World.{World, Env, Exec, pure, lift, ◌>>=◌, ◌>>◌, now, uuid4, record_event}
use headofcontext.World.Logged.{Logs, Logs-record_event}
use headofcontext.World.Stores.{KeepsStores-of_Logs, KeepsStores-of_IsQuiet, KeepsStores-gets}
use headofcontext.World.Logged.{IsQuiet-now, IsQuiet-uuid4}

ruleset steps_rules = (Stepwise-pure, Stepwise-lift, Stepwise-if, Stepwise-bind)

module _ {A : Type 0} where
  Stepwise-of_Logs : (m : Exec A) → Logs m → Stepwise m
  Stepwise-of_Logs m l = Stepwise-of_KeepsStores m (KeepsStores-of_Logs m l)

  Stepwise-gets : (f : World → A) → Stepwise (headofcontext.World.gets f)
  Stepwise-gets f = Stepwise-of_KeepsStores _ (KeepsStores-gets f)

Stepwise-get : (request_id : String) → Stepwise (get request_id)
unfolding get
Stepwise-get request_id = record { at = λ w. StoreSteps.here }

module _ {Args : Type 0} (env : Env Args) where
  Stepwise-now : Stepwise (now env)
  Stepwise-now = Stepwise-of_KeepsStores _ (KeepsStores-of_IsQuiet _ (IsQuiet-now env))

  Stepwise-uuid4 : Stepwise (uuid4 env)
  Stepwise-uuid4 = Stepwise-of_KeepsStores _ (KeepsStores-of_IsQuiet _ (IsQuiet-uuid4 env))

  Stepwise-record_event : (e : headofcontext.Core.Events.AuditEvent) → Stepwise (record_event env e)
  Stepwise-record_event e = Stepwise-of_Logs _ (Logs-record_event env e)

ruleset env_rules =
    (steps_rules, Stepwise-gets, Stepwise-get, Stepwise-now, Stepwise-uuid4, Stepwise-record_event)

module _ {Args : Type 0} (env : Env Args) where
  Stepwise-get_request : (request_id : String) → Stepwise (get_request env request_id)
  unfolding get_request
  Stepwise-get_request request_id = search env_rules

  Stepwise-expire_overdue : (at : ℤ) (r : ApprovalRequest) → Stepwise (expire_overdue env at r)
  unfolding expire_overdue
  Stepwise-expire_overdue at r = search (env_rules, Stepwise-expire)

  Stepwise-refuse_approver :
      (at : ℤ) (r : ApprovalRequest) (approver : String) (reason : Option String)
      → Stepwise (refuse_approver env at r approver reason)
  unfolding refuse_approver
  Stepwise-refuse_approver at r approver none = search env_rules
  Stepwise-refuse_approver at r approver (some reason) = search env_rules

  Stepwise-authorize_approver :
      (at : ℤ) (r : ApprovalRequest) (approver : String) (own : Bool)
      → Stepwise (authorize_approver env at r approver own)
  unfolding authorize_approver approver_refusal
  Stepwise-authorize_approver at r approver own = search (env_rules, Stepwise-refuse_approver)

  Stepwise-moved :
      (request_id : String) (to_status : ApprovalStatus) (approver : String) (at : ℤ)
      (reason : String)
      → Stepwise
          (transition request_id (pending ∷ []) to_status (resolution env approver at reason))
  Stepwise-moved request_id to_status approver at reason =
      Stepwise-resolve request_id to_status (some approver) (some at) (some reason)

  Stepwise-resolve_request :
      (at : ℤ) (request_id approver : String) (is_approved : Bool) (reason : String) (own : Bool)
      → Stepwise (resolve_request env at request_id approver is_approved reason own)
  unfolding resolve_request
  Stepwise-resolve_request at request_id approver is_approved reason own =
      search (env_rules, Stepwise-get_request, Stepwise-expire_overdue, Stepwise-moved) depth 20

module _ {Args : Type 0} (env : Env Args) (settings : Settings) where
  Stepwise-event :
      (kind : headofcontext.Core.Events.EventKind) (r : ApprovalRequest) (outcome reason : String)
      → Stepwise (event env settings kind r outcome reason)
  Stepwise-event kind r outcome reason =
      Stepwise-of_Logs _ (event-Logs env settings kind r outcome reason)

  Stepwise-notified :
      (r : ApprovalRequest) (answer : Result (Unit {0})) → Stepwise (notified env settings r answer)
  unfolding notified
  Stepwise-notified r (ok u) = search env_rules
  Stepwise-notified r (err other) = search env_rules
  Stepwise-notified r (err (hoc e)) = search (env_rules, Stepwise-event)

  Stepwise-notify :
      (channels : List Channel) (r : ApprovalRequest) → Stepwise (notify env settings channels r)
  unfolding notify
  Stepwise-notify [] r = search env_rules
  Stepwise-notify (channel ∷ rest) r =
      Stepwise-bind _ _ (Stepwise-notified r (channel r)) λ u. Stepwise-notify rest r

  Stepwise-decide :
      (chain : PrincipalChain) (tool : String) (args : Args)
      (context : Option headofcontext.Core.Decision.DecisionContext)
      → Stepwise (decide env chain invoke tool (some args) context)
  Stepwise-decide chain tool args context =
      Stepwise-of_Logs _ (decide-Logs env chain invoke tool (some args) context)

  Stepwise-park :
      (chain : PrincipalChain) (tool : String) (args : Args) (d : Decision)
      → Stepwise (park env settings chain tool args d)
  unfolding park
  Stepwise-park chain tool args d =
      search (env_rules, Stepwise-create, Stepwise-event, Stepwise-notify) depth 20

  pub Stepwise-gate :
      (chain : PrincipalChain) (tool : String) (args : Option Args)
      → Stepwise (gate env settings chain tool args)
  unfolding gate
  Stepwise-gate chain tool args = search (env_rules, Stepwise-decide, Stepwise-park) depth 20

  pub Stepwise-resolve_call :
      (request_id approver : String) (is_approved : Bool) (reason : String)
      → Stepwise (resolve env settings request_id approver is_approved reason)
  unfolding resolve
  Stepwise-resolve_call request_id approver is_approved reason =
      search
        (env_rules, Stepwise-get_request, Stepwise-authorize_approver, Stepwise-resolve_request)
        depth 20

  Stepwise-refetch :
      (r : ApprovalRequest) (found : Option ApprovalRequest)
      → Stepwise (refetch env settings r found)
  unfolding refetch
  Stepwise-refetch r (some found) = search env_rules
  Stepwise-refetch r none = search env_rules

  Stepwise-expire_if_needed : (r : ApprovalRequest) → Stepwise (expire_if_needed env settings r)
  unfolding expire_if_needed
  Stepwise-expire_if_needed r = search (env_rules, Stepwise-expire_live, Stepwise-refetch) depth 20

  Stepwise-claim :
      (chain : PrincipalChain) (r : ApprovalRequest) (target : String) (args : Args)
      → Stepwise (claim env settings chain r target args)
  unfolding claim
  Stepwise-claim chain r target args = Stepwise-bind _ _ (Stepwise-now env) λ at.
      Stepwise-bind _ _ (Stepwise-consume r.request_id at) λ taken.
        Stepwise-of_KeepsStores _ (after_claim-KeepsStores env settings chain r target args taken)

  Stepwise-deny_call :
      (chain : PrincipalChain) (tool : String) (args : Args) (reason : String)
      → Stepwise (headofcontext.Actions.Gate.deny_call env settings chain tool args reason)
  Stepwise-deny_call chain tool args reason =
      Stepwise-of_Logs _ (deny_call-Logs env settings chain tool args reason)

  Stepwise-answer_call :
      (chain : PrincipalChain) (r : ApprovalRequest) (target : String) (args : Args)
      (m : Option String)
      → Stepwise (answer_call env settings chain r target args m)
  unfolding answer_call
  Stepwise-answer_call chain r target args none = Stepwise-claim chain r target args
  Stepwise-answer_call chain r target args (some reason) =
      Stepwise-deny_call chain target args reason

  Stepwise-redeem_request :
      (chain : PrincipalChain) (tool : Option String) (args : Args) (found : Option ApprovalRequest)
      → Stepwise (redeem_request env settings chain tool args found)
  unfolding redeem_request redeem_found
  Stepwise-redeem_request chain tool args none =
      Stepwise-deny_call chain (or_text tool "tool:unknown") args "approval_unknown"
  Stepwise-redeem_request chain tool args (some r) =
      Stepwise-bind _ _ (Stepwise-lift (validate_resource_pattern (or_text tool r.tool))) λ u.
        Stepwise-bind _ _ (Stepwise-expire_if_needed r) λ request.
          Stepwise-answer_call chain request (or_text tool r.tool) args
            (mismatch env settings request chain (or_text tool r.tool) args)

  pub Stepwise-redeem :
      (chain : PrincipalChain) (request_id : String) (args : Option Args) (tool : Option String)
      → Stepwise (redeem env settings chain request_id args tool)
  unfolding redeem
  Stepwise-redeem chain request_id args tool =
      Stepwise-bind _ _ (Stepwise-get request_id)
        λ found. Stepwise-redeem_request chain tool (or_default args env.no_args) found

  Stepwise-list_pending : (subject : Option String) → Stepwise (list_pending subject)
  unfolding list_pending
  Stepwise-list_pending subject = record { at = λ w. StoreSteps.here }

  pub Stepwise-pending_for : (user : String) → Stepwise (pending_for env settings user)
  unfolding pending_for
  Stepwise-pending_for user = search (env_rules, Stepwise-list_pending) depth 20
