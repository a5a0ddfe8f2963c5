-- ===== src/Actions/Gate/Redeem.antt =====
-- What `redeem` asks before it answers ALLOW, and that the request is then spent.
use headofcontext.Prelude.{
  ◌≡◌, refl, sym, ◌∙◌, ap, subst, ◌+◌, String, inl, inr, Option, none, some, [], arith, lookup,
  insert, lookup-insert, eq_iff, eq_refl, Option-cases, or_default, or_text, if◌then◌else◌,
}
use headofcontext.Prelude.Int.{ℤ, ◌≤ℤ◌}
use headofcontext.Core.Errors.{Result, ok, Result-cases}
use headofcontext.Core.Refs.{validate_resource_pattern}
use headofcontext.Core.Chain.{PrincipalChain, depth}
use headofcontext.Core.Decision.{allow, Decision, invoke}
use headofcontext.Core.Decider.{denied}
use headofcontext.Core.Decider.Laws.{conclude-Concluded}
use headofcontext.Core.Decider.Total.{decide-Logs, conclude-Logs}
use headofcontext.Core.Events.{EventKind, approval_consumed}
use headofcontext.Actions.Request.{ApprovalRequest, approved, consumed, status_eq}
use headofcontext.Actions.Store.{get, transition, consume, move}
use headofcontext.Actions.Store.Steps.{IsKeyed}
use headofcontext.Actions.Gate.{
  Settings, event, deny_call, mismatch, refetch, expire_if_needed, after_claim, claim, answer_call,
  redeem_found, redeem_request, redeem,
}
use headofcontext.World.{World, Env, ticked, ◌>>=◌}
use headofcontext.World.Logged.{Logs, logs_rules}
use headofcontext.World.Stores.{
  KeepsStores, KeepsStores-of_Logs, KeepsStores-bind, KeepsStores-pure,
}

module _ {Args : Type 0} (env : Env Args) (settings : Settings) where
  -- The stored request answers for this very call, now.
  pub record Answers (chain : PrincipalChain) (tool : String) (args : Args) (at : ℤ)
      (r : ApprovalRequest) : Type 0 where
    pub status : r.status ≡ approved
    pub in_time : at ≤ℤ r.expires_at
    pub same_tool : r.tool ≡ tool
    pub same_subject : r.subject ≡ chain.subject
    pub same_actor : r.actor ≡ chain.actor
    pub same_depth : r.delegation_depth ≡ depth chain
    pub same_args : r.args_hash ≡ env.hash_json args

  mismatch-none :
      (chain : PrincipalChain) (tool : String) (args : Args) (at : ℤ) (r : ApprovalRequest)
      → at ≤ℤ r.expires_at
      → mismatch env settings r chain tool args ≡ none
      → Answers chain tool args at r
  unfolding mismatch
  mismatch-none chain tool args at r t h = record {
    status = ground arith;
    in_time = t;
    same_tool = ground (arith, eq_iff r.tool tool);
    same_subject = ground (arith, eq_iff r.subject chain.subject);
    same_actor = ground (arith, eq_iff r.actor chain.actor);
    same_depth = ground arith;
    same_args = ground (arith, eq_iff r.args_hash (env.hash_json args));
  }

  mismatch-approved :
      (chain : PrincipalChain) (tool : String) (args : Args) (r : ApprovalRequest)
      → mismatch env settings r chain tool args ≡ none
      → r.status ≡ approved
  unfolding mismatch
  mismatch-approved chain tool args r h = ground arith

  deny_call-deny :
      (chain : PrincipalChain) (tool : String) (args : Args) (reason : String) (w : World)
      {d : Decision}
      → (deny_call env settings chain tool args reason w).0 ≡ ok d
      → d.outcome ≡ allow
      → ⊥
  unfolding deny_call
  deny_call-deny chain tool args reason w {d} h a =
      let con =
        conclude-Concluded env chain invoke w tool [] (some args) (denied reason 0) {d = d} h in
      cc (con.outcome, a)

  -- A request that is approved after the expiry check was approved before, and is in time.
  expire_if_needed-approved :
      (r r' : ApprovalRequest) (w : World)
      → lookup r.request_id w.approvals ≡ some r
      → (expire_if_needed env settings r w).0 ≡ ok r'
      → r'.status ≡ approved
      → (r' ≡ r)
        × (env.clock w.tick ≤ℤ r.expires_at)
        × ((expire_if_needed env settings r w).1 ≡ ticked w)
  unfolding expire_if_needed refetch transition ◌>>=◌
  expire_if_needed-approved r r' w found h a = (ground arith, ground arith, ground arith)

  pub event-Logs :
      (kind : EventKind) (r : ApprovalRequest) (outcome reason : String)
      → Logs (event env settings kind r outcome reason)
  unfolding event
  event-Logs kind r outcome reason = search logs_rules

  -- What the claim leaves of a request.
  abbrev pub spent : ℤ → ApprovalRequest → ApprovalRequest
  spent at r = record r { status = consumed; consumed_at = some at }

  pub deny_call-Logs :
      (chain : PrincipalChain) (tool : String) (args : Args) (reason : String)
      → Logs (deny_call env settings chain tool args reason)
  unfolding deny_call
  deny_call-Logs chain tool args reason =
      conclude-Logs env chain invoke tool [] (some args) (denied reason 0)

  pub after_claim-KeepsStores :
      (chain : PrincipalChain) (r : ApprovalRequest) (target : String) (args : Args)
      (taken : Option ApprovalRequest)
      → KeepsStores (after_claim env settings chain r target args taken)
  unfolding after_claim
  after_claim-KeepsStores chain r target args none =
      KeepsStores-of_Logs _ (deny_call-Logs chain target args "approval_consumed")
  after_claim-KeepsStores chain r target args (some claimed) =
      let decided = KeepsStores-of_Logs _ (
        decide-Logs env chain invoke target (some args)
          (some (record { approval_id = some r.request_id }))) in
      KeepsStores-bind _ _ decided λ decision.
        KeepsStores-bind _ _
          (KeepsStores-of_Logs _ (event-Logs approval_consumed claimed "CONSUMED" _))
          λ u. KeepsStores-pure decision

  -- The compare-and-set takes an approved request.
  consume_approved :
      (r : ApprovalRequest) (at : ℤ) (w : World)
      → lookup r.request_id w.approvals ≡ some r
      → r.status ≡ approved
      → consume r.request_id at w ≡ (
        ok (some (spent at r)),
        record w { approvals = insert r.request_id (spent at r) w.approvals },
      )
  unfolding consume
  consume_approved r at w found a = rw (found, move) (rw (a, status_eq) refl)

  -- The claim spends the request, whatever the decision after it is and even if that raises.
  claim_spends :
      (chain : PrincipalChain) (r : ApprovalRequest) (target : String) (args : Args) (w : World)
      → lookup r.request_id w.approvals ≡ some r
      → r.status ≡ approved
      → lookup r.request_id (claim env settings chain r target args w).1.approvals
        ≡ some (spent (env.clock w.tick) r)
  unfolding claim ◌>>=◌
  claim_spends chain r target args w found a =
      let at : ℤ = env.clock w.tick in
      let w2 : World = record w {
        tick = w.tick + 1;
        approvals = insert r.request_id (spent at r) w.approvals;
      } in
      let kept : (after_claim env settings chain r target args (some (spent at r)) w2).1.approvals
          ≡ w2.approvals =
        ((after_claim-KeepsStores chain r target args (some (spent at r))).at w2).approvals in
      rw (consume_approved r at (ticked w) found a) (
        ap (lookup r.request_id) kept
        ∙ (lookup-insert r.request_id r.request_id (spent at r) w.approvals
            ∙ ap (λ b. if b then some (spent at r) else lookup r.request_id w.approvals)
                (eq_refl r.request_id)))

  -- Whatever the mismatch, an ALLOW comes from the claim.
  answer_call-allow :
      (chain : PrincipalChain) (r : ApprovalRequest) (target : String) (args : Args)
      (m : Option String) (w : World) {d : Decision}
      → (answer_call env settings chain r target args m w).0 ≡ ok d
      → d.outcome ≡ allow
      → (m ≡ none)
  unfolding answer_call
  answer_call-allow chain r target args none w h a = refl
  answer_call-allow chain r target args (some reason) w {d} h a =
      absurd (deny_call-deny chain target args reason w {d = d} h a)

  answer_call_spends :
      (chain : PrincipalChain) (r : ApprovalRequest) (target : String) (args : Args) (w : World)
      → lookup r.request_id w.approvals ≡ some r
      → r.status ≡ approved
      → lookup r.request_id (answer_call env settings chain r target args none w).1.approvals
        ≡ some (spent (env.clock w.tick) r)
  unfolding answer_call
  answer_call_spends = claim_spends

  -- The step after the expiry check, in the state that the check left.
  checked_allow :
      (chain : PrincipalChain) (r r' : ApprovalRequest) (target : String) (args : Args)
      (w v : World) {d : Decision}
      → lookup r.request_id w.approvals ≡ some r
      → expire_if_needed env settings r w ≡ (ok r', v)
      → (answer_call env settings chain r' target args
          (mismatch env settings r' chain target args)
          v).0
        ≡ ok d
      → d.outcome ≡ allow
      → Answers chain target args (env.clock w.tick) r
        × (lookup r.request_id
              (answer_call env settings chain r' target args
                (mismatch env settings r' chain target args)
                v).1.approvals
            ≡ some (spent (env.clock (w.tick + 1)) r))
  checked_allow chain r r' target args w v {d} found step h a =
      let fits =
        answer_call-allow chain r' target args (mismatch env settings r' chain target args) v
          {d = d} h a in
      let status : r'.status ≡ approved = mismatch-approved chain target args r' fits in
      let (same, in_time, world) =
        expire_if_needed-approved r r' w found
          (ap (λ (p : Result ApprovalRequest × World). p.0) step) status in
      let moved : v ≡ ticked w =
        sym (ap (λ (p : Result ApprovalRequest × World). p.1) step) ∙ world in
      let fits' : mismatch env settings r chain target args ≡ none =
        subst (λ x. mismatch env settings x chain target args ≡ none) same fits in
      (
        mismatch-none chain target args (env.clock w.tick) r in_time fits',
        rw (fits, same, moved)
            (answer_call_spends chain r target args (ticked w) found
              (subst (λ (x : ApprovalRequest). x.status ≡ approved) same status)),
      )

  redeem_found-allow :
      (chain : PrincipalChain) (r : ApprovalRequest) (tool : Option String) (args : Args)
      (w : World) {d : Decision}
      → lookup r.request_id w.approvals ≡ some r
      → (redeem_found env settings chain r tool args w).0 ≡ ok d
      → d.outcome ≡ allow
      → Answers chain (or_text tool r.tool) args (env.clock w.tick) r
        × (lookup r.request_id (redeem_found env settings chain r tool args w).1.approvals
            ≡ some (spent (env.clock (w.tick + 1)) r))
  unfolding redeem_found ◌>>=◌
  redeem_found-allow chain r tool args w {d} found h a =
      elim (Result-cases (validate_resource_pattern (or_text tool r.tool))) [
        | inr (e, bad) ↦ absurd (ground arith)
        | inl (t, good) ↦ elim (Result-cases (expire_if_needed env settings r w).0) [
          | inr (e, bad) ↦ absurd (ground arith)
          | inl (r', stepped) ↦
              let v = (expire_if_needed env settings r w).1 in
              let step : expire_if_needed env settings r w ≡ (ok r', v) = λ i. (stepped i, v) in
              rw (good, stepped)
                (checked_allow chain r r' (or_text tool r.tool) args w v {d = d} found step
                  (ground arith) a)
        ]
      ]

  -- `redeem` answers ALLOW only for a stored request that was approved, had not expired, and was made
  -- for the same tool, subject, actor, depth and arguments. Afterwards that request is consumed.
  pub redeem_allow :
      (chain : PrincipalChain) (request_id : String) (args : Option Args) (tool : Option String)
      (w : World) {d : Decision}
      → IsKeyed w
      → (redeem env settings chain request_id args tool w).0 ≡ ok d
      → d.outcome ≡ allow
      → (r : ApprovalRequest) × (lookup request_id w.approvals ≡ some r)
        × Answers chain (or_text tool r.tool) (or_default args env.no_args) (env.clock w.tick) r
        × (lookup request_id (redeem env settings chain request_id args tool w).1.approvals
            ≡ some (spent (env.clock (w.tick + 1)) r))
  unfolding redeem redeem_request get ◌>>=◌
  redeem_allow chain request_id args tool w {d} keyed h a =
      elim (Option-cases (lookup request_id w.approvals)) [
        | inl missing ↦ absurd (
            deny_call-deny chain (or_text tool "tool:unknown") (or_default args env.no_args)
              "approval_unknown" w {d = d} (ground arith) a)
        | inr (r, found) ↦
            let key : r.request_id ≡ request_id = keyed request_id r found in
            let at_key : lookup r.request_id w.approvals ≡ some r =
              subst (λ k. lookup k w.approvals ≡ some r) (sym key) found in
            let (answers, gone) =
              redeem_found-allow chain r tool (or_default args env.no_args) w {d = d} at_key
                (ground arith) a in
            (
              r,
              found,
              answers,
              rw (found, redeem_request)
                  (subst
                    (λ k.
                      lookup k
                        (redeem_found env settings chain r tool (or_default args env.no_args)
                          w).1.approvals
                      ≡ some (spent (env.clock (w.tick + 1)) r))
                    key gone),
            )
      ]
