-- ===== src/Actions/Gate/Parked.antt =====
-- What `gate` answers: a decision alone, or a decision and the request that it stored.
use headofcontext.Prelude.{
  ◌≡◌, refl, ◌∙◌, ap, ◌⊎◌, inl, inr, String, true, false, Option, none, some, List, [], ◌∷◌, arith,
  insert, lookup, sym, Option-cases, Bool-cases, or_default, if◌then◌else◌,
}
use headofcontext.Prelude.Int.{ℤ, ◌+ℤ◌}
use headofcontext.Core.Errors.{hoc, other, Result, ok, err}
use headofcontext.Core.Chain.{PrincipalChain, depth}
use headofcontext.Core.Decision.{Decision, is_require_approval, invoke}
use headofcontext.Core.Decider.{decide}
use headofcontext.Core.Decider.Total.{decide-Logs}
use headofcontext.Actions.Request.{ApprovalRequest, pending}
use headofcontext.Actions.Store.{create}
use headofcontext.Actions.Gate.{
  Channel, Settings, GateResult, is_channel_error, notified, notify, parked, park, gate,
}
use headofcontext.Actions.Gate.Redeem.{event-Logs}
use headofcontext.World.{World, Env, pure}
use headofcontext.World.Logged.{SameStores, IsQuiet-now, IsQuiet-uuid4}
use headofcontext.World.Stores.{
  KeepsStores, KeepsStores-of_Logs, KeepsStores-of_IsQuiet, KeepsStores-bind, KeepsStores-lift,
  KeepsStores-pure, KeepsStores-if, kept_stores,
}
use headofcontext.World.Returns.{bind_ok, lift_ok, pure_ok}

create_ok :
    (r : ApprovalRequest) (w : World) {t : Unit {0}} {v : World}
    → create r w ≡ (ok t, v)
    → (lookup r.request_id w.approvals ≡ none)
      × (v ≡ record w { approvals = insert r.request_id r w.approvals })
unfolding create
create_ok r w h = elim (Option-cases (lookup r.request_id w.approvals)) [
  | inr (held, known) ↦ absurd (ground arith)
  | inl new ↦ (new, ground arith)
]

module _ {Args : Type 0} (env : Env Args) (settings : Settings) where
  notified-KeepsStores :
      (r : ApprovalRequest) (answer : Result (Unit {0}))
      → KeepsStores (notified env settings r answer)
  unfolding notified
  notified-KeepsStores r (ok u) = KeepsStores-pure tt
  notified-KeepsStores r (err other) = KeepsStores-lift (err other)
  notified-KeepsStores r (err (hoc e)) =
      KeepsStores-if (is_channel_error e.class) _ _
        (KeepsStores-of_Logs _ (event-Logs env settings _ _ _ _)) (KeepsStores-lift (err (hoc e)))

  notify-KeepsStores :
      (channels : List Channel) (r : ApprovalRequest) → KeepsStores (notify env settings channels r)
  unfolding notify
  notify-KeepsStores [] r = KeepsStores-pure tt
  notify-KeepsStores (channel ∷ rest) r =
      KeepsStores-bind _ _ (notified-KeepsStores r (channel r)) λ u. notify-KeepsStores rest r

  -- The request that was parked: pending, for this very call, within the gate's span, and stored
  -- under an id that no request had.
  pub record Parked (chain : PrincipalChain) (tool : String) (args : Args) (g : GateResult)
      (w v : World) : Type 0 where
    pub request : ApprovalRequest
    pub answered : g.approval ≡ some request
    pub new : lookup request.request_id w.approvals ≡ none
    pub stored : v.approvals ≡ insert request.request_id request w.approvals
    pub is_pending : request.status ≡ pending
    pub tool_asked : request.tool ≡ tool
    pub args_asked : request.args_hash ≡ env.hash_json args
    pub for_subject : request.subject ≡ chain.subject
    pub for_actor : request.actor ≡ chain.actor
    pub at_depth : request.delegation_depth ≡ depth chain
    pub of_decision : request.decision_id ≡ g.decision.decision_id
    pub because : request.approval_reason ≡ g.decision.reason
    pub expires : request.expires_at ≡ request.created_at +ℤ settings.ttl
    pub unresolved : request.resolved_by ≡ none
    pub unconsumed : request.consumed_at ≡ none

  -- The fields of the request that `park` builds.
  parked-Parked :
      (chain : PrincipalChain) (tool : String) (args : Args) (request_id : String) (at : ℤ)
      (w v : World) (g : GateResult)
      → g.approval ≡ some (parked env settings chain tool args g.decision request_id at)
      → lookup request_id w.approvals ≡ none
      → v.approvals
        ≡ insert request_id
            (parked env settings chain tool args g.decision request_id at)
            w.approvals
      → Parked chain tool args g w v
  parked-Parked chain tool args request_id at w v g answered new stored = record {
    request = parked env settings chain tool args g.decision request_id at;
    answered = answered;
    new = new;
    stored = stored;
    is_pending = refl;
    tool_asked = refl;
    args_asked = refl;
    for_subject = refl;
    for_actor = refl;
    at_depth = refl;
    of_decision = refl;
    because = refl;
    expires = refl;
    unresolved = refl;
    unconsumed = refl;
  }

  -- A request that was parked from a state with the same approvals.
  Parked-before :
      {chain : PrincipalChain} {tool : String} {args : Args} {g : GateResult} {w u v : World}
      → Parked chain tool args g u v
      → u.approvals ≡ w.approvals
      → Parked chain tool args g w v
  Parked-before {chain} {tool} {args} {g} p before = record {
    request = p.request;
    answered = p.answered;
    new = ap (lookup p.request.request_id) (sym before) ∙ p.new;
    stored = p.stored ∙ ap (insert p.request.request_id p.request) before;
    is_pending = p.is_pending;
    tool_asked = p.tool_asked;
    args_asked = p.args_asked;
    for_subject = p.for_subject;
    for_actor = p.for_actor;
    at_depth = p.at_depth;
    of_decision = p.of_decision;
    because = p.because;
    expires = p.expires;
    unresolved = p.unresolved;
    unconsumed = p.unconsumed;
  }

  park_ok :
      (chain : PrincipalChain) (tool : String) (args : Args) (d : Decision) (w : World)
      {g : GateResult} {v : World}
      → park env settings chain tool args d w ≡ (ok g, v)
      → (g.decision ≡ d) × Parked chain tool args g w v
  unfolding park
  park_ok chain tool args d w {g} {v} h =
      let (at, u1, e1, h1) = bind_ok _ _ w h in
      let (request_id, u2, e2, h2) = bind_ok _ _ u1 h1 in
      let (t3, u3, e3, h3) = bind_ok _ _ u2 h2 in
      let (t4, u4, e4, h4) = bind_ok _ _ u3 h3 in
      let (t5, u5, e5, h5) = bind_ok _ _ u4 h4 in
      settle at request_id u1 u2 u3 u4 u5
        (kept_stores (KeepsStores-of_IsQuiet _ (IsQuiet-now env)) e1)
        (kept_stores (KeepsStores-of_IsQuiet _ (IsQuiet-uuid4 env)) e2) (create_ok _ u2 e3)
        (kept_stores (KeepsStores-of_Logs _ (event-Logs env settings _ _ _ _)) e4)
        (kept_stores (notify-KeepsStores settings.channels _) e5) (pure_ok _ u5 h5)
    where
      settle :
          (at : ℤ) (request_id : String) (u1 u2 u3 u4 u5 : World)
          → SameStores w u1
          → SameStores u1 u2
          → (lookup request_id u2.approvals ≡ none)
            × (u3 ≡ record u2 {
              approvals =
                  insert request_id
                    (parked env settings chain tool args d request_id at)
                    u2.approvals;
            })
          → SameStores u3 u4
          → SameStores u4 u5
          → (g ≡ record {
            decision = d;
            approval = some (parked env settings chain tool args d request_id at);
          })
            × (v ≡ u5)
          → (g.decision ≡ d) × Parked chain tool args g w v
      settle at request_id u1 u2 u3 u4 u5 s1 s2 s3 s4 s5 (is, s6) =
          let r = parked env settings chain tool args d request_id at in
          let same : g.decision ≡ d = ap (λ (x : GateResult). x.decision) is in
          let before = s2.approvals ∙ s1.approvals in
          (
            same,
            parked-Parked chain tool args request_id at w v g
                (rw same (ap (λ (x : GateResult). x.approval) is))
                (ap (lookup request_id) (sym before) ∙ s3.0)
                (rw same (
                  ap (λ (x : World). x.approvals) s6
                  ∙ s5.approvals
                  ∙ s4.approvals
                  ∙ ap (λ (x : World). x.approvals) s3.1
                  ∙ ap (insert request_id r) before)),
          )

  -- When gate returns, either the outcome asks for no approval, no request is returned and the
  -- approvals are as they were; or it does, and the request that is returned is pending, for this
  -- tool, the chain's subject, actor and depth, the hash of these arguments and this decision; it
  -- expires the gate's span after it was made, no one resolved or consumed it, and it is stored
  -- beside the requests there were, under an id that none of them had.
  pub gate-Parked :
      (chain : PrincipalChain) (tool : String) (args : Option Args) (w : World) {g : GateResult}
      {v : World}
      → gate env settings chain tool args w ≡ (ok g, v)
      → ((is_require_approval g.decision.outcome ≡ false)
          × (g.approval ≡ none)
          × (v.approvals ≡ w.approvals))
        ⊎ ((is_require_approval g.decision.outcome ≡ true)
            × Parked chain tool (or_default args env.no_args) g w v)
  unfolding gate
  gate-Parked chain tool args w {g} {v} h =
      let (t, u, e, h1) = bind_ok _ _ w h in
      let call_args = or_default args env.no_args in
      let (d, u2, e2, h2) = bind_ok (decide env chain invoke tool (some call_args) none) _ u h1 in
      settle d u u2 (lift_ok _ w e).1
        (kept_stores
          (KeepsStores-of_Logs _ (decide-Logs env chain invoke tool (some call_args) none)) e2)
        h2
    where
      settle :
          (d : Decision) (u u2 : World)
          → u ≡ w
          → SameStores u u2
          → (if is_require_approval d.outcome
                then park env settings chain tool (or_default args env.no_args) d
                else pure (record { decision = d; approval = none }))
              u2
            ≡ (ok g, v)
          → ((is_require_approval g.decision.outcome ≡ false)
              × (g.approval ≡ none)
              × (v.approvals ≡ w.approvals))
            ⊎ ((is_require_approval g.decision.outcome ≡ true)
                × Parked chain tool (or_default args env.no_args) g w v)
      settle d u u2 s1 s2 k =
          let before : u2.approvals ≡ w.approvals =
            s2.approvals ∙ ap (λ (x : World). x.approvals) s1 in
          elim (Bool-cases (is_require_approval d.outcome)) [
            | inr settled ↦
                let (is, s3) = pure_ok _ u2 (rw settled at k) in
                inl (
                  ap (λ (x : GateResult). is_require_approval x.decision.outcome) is ∙ settled,
                  ap (λ (x : GateResult). x.approval) is,
                  ap (λ (x : World). x.approvals) s3 ∙ before,
                )
            | inl asks ↦
                let (same, p) =
                  park_ok chain tool (or_default args env.no_args) d u2 (rw asks at k) in
                inr (
                  ap (λ (x : Decision). is_require_approval x.outcome) same ∙ asks,
                  Parked-before p before,
                )
          ]
