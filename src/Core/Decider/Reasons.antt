-- ===== src/Core/Decider/Reasons.antt =====
-- `decide`: the outcome and the reason of every decision, branch by branch.
use headofcontext.Prelude.{
  ◌≡◌, ◌≢◌, [], refl, sym, subst, ap, inl, inr, ℕ, String, Bool, true, false, Option, none, some,
  arith, or_default, Bool-cases, Option-cases,
}
use headofcontext.Core.Errors.{Exception, HocError, hoc, other, Result, ok, err}
use headofcontext.Core.Scope
use headofcontext.Core.Chain.{PrincipalChain}
use headofcontext.Core.Decision.{
  Outcome, allow, deny, is_allow, Action, Decision, Verdict, DecisionContext, no_context, Policy,
}
use headofcontext.Core.Decider.{
  Evaluation, plain_allow, after_check, policy_verdict, settle_policy, decide,
}
use headofcontext.Core.Decider.Laws.{
  capability, PolicyPasses, policy_verdict-allow_iff, conclude-Concluded, evaluation, after,
  decide-eq-ok,
}
use headofcontext.World.{World, Env}

module _ {Args : Type 0} (env : Env Args) (chain : PrincipalChain) (action : Action) where
  -- Why a decision on the resource has an outcome and a reason, in the engine's state `w`.
  pub data Explains (w : World) (resource : String) (args : Args) (context : DecisionContext)
      : Outcome → String → Type 0 where
    out_of_scope :
        Scope.covers chain.scope (capability action.kind resource) ≡ false
        → Explains w resource args context deny "scope_excluded"
    engine_refused :
        (e : HocError)
        → Scope.covers chain.scope (capability action.kind resource) ≡ true
        → env.check w chain.subject action.relation resource ≡ err (hoc e)
        → Explains w resource args context deny e.reason
    engine_broke :
        Scope.covers chain.scope (capability action.kind resource) ≡ true
        → env.check w chain.subject action.relation resource ≡ err other
        → Explains w resource args context deny "engine_error"
    unrelated :
        Scope.covers chain.scope (capability action.kind resource) ≡ true
        → env.check w chain.subject action.relation resource ≡ ok false
        → Explains w resource args context deny "not_related"
    policy_broke :
        (p : Policy Args) (e : Exception)
        → Scope.covers chain.scope (capability action.kind resource) ≡ true
        → env.check w chain.subject action.relation resource ≡ ok true
        → env.policy ≡ some p
        → p chain action resource args context ≡ err e
        → Explains w resource args context deny "policy_error"
    policy_says :
        (p : Policy Args) (v : Verdict)
        → Scope.covers chain.scope (capability action.kind resource) ≡ true
        → env.check w chain.subject action.relation resource ≡ ok true
        → env.policy ≡ some p
        → p chain action resource args context ≡ ok v
        → v.outcome ≢ allow
        → Explains w resource args context v.outcome v.reason
    all_agree :
        Scope.covers chain.scope (capability action.kind resource) ≡ true
        → env.check w chain.subject action.relation resource ≡ ok true
        → PolicyPasses env chain action resource args context
        → Explains w resource args context allow "allowed"

  module _ (w : World) (resource : String) (args : Args) (context : DecisionContext) where
    -- An evaluation that is explained.
    abbrev Explained : Evaluation → Type 0
    Explained e = Explains w resource args context e.outcome e.reason

    verdict-Explains :
        (p : Policy Args) (r : Result Verdict)
        → Scope.covers chain.scope (capability action.kind resource) ≡ true
        → env.check w chain.subject action.relation resource ≡ ok true
        → env.policy ≡ some p
        → p chain action resource args context ≡ r
        → Explains w resource args context (settle_policy r).outcome (settle_policy r).reason
    verdict-Explains p (err e) inside related is says = policy_broke p e inside related is says
    verdict-Explains p (ok v) inside related is says = elim (Bool-cases (is_allow v.outcome)) [
      | inl passes ↦ rw passes (all_agree inside related (rw is (v, says, ground arith)))
      | inr refuses ↦
          rw refuses (policy_says p v inside related is says (λ e. absurd (ground arith)))
    ]

    verdict-none :
        env.policy ≡ none → policy_verdict env chain action resource args context ≡ plain_allow
    unfolding policy_verdict
    verdict-none is = rw is refl

    verdict-some :
        (p : Policy Args)
        → env.policy ≡ some p
        → policy_verdict env chain action resource args context
          ≡ settle_policy (p chain action resource args context)
    unfolding policy_verdict
    verdict-some p is = rw is refl

    related-Explains :
        Scope.covers chain.scope (capability action.kind resource) ≡ true
        → env.check w chain.subject action.relation resource ≡ ok true
        → Explains w resource args context
            (policy_verdict env chain action resource args context).outcome
            (policy_verdict env chain action resource args context).reason
    related-Explains inside related = elim (Option-cases (env.policy)) [
      | inl without ↦
          let e = verdict-none without in
          subst (λ (v : Verdict). Explains w resource args context v.outcome v.reason) (sym e)
            (all_agree inside related (
              (policy_verdict-allow_iff env chain action resource args context).0
                (ap (λ (v : Verdict). v.outcome) e)))
      | inr (p, is) ↦
          subst (λ (v : Verdict). Explains w resource args context v.outcome v.reason)
            (sym (verdict-some p is))
            (verdict-Explains p (p chain action resource args context) inside related is refl)
    ]

    after_check-Explains :
        (r : Result Bool) (ms : ℕ)
        → Scope.covers chain.scope (capability action.kind resource) ≡ true
        → env.check w chain.subject action.relation resource ≡ r
        → Explained (after_check env chain action resource args context r ms)
    unfolding after_check
    after_check-Explains (err (hoc e)) ms inside said = engine_refused e inside said
    after_check-Explains (err other) ms inside said = engine_broke inside said
    after_check-Explains (ok false) ms inside said = unrelated inside said
    after_check-Explains (ok true) ms inside said = related-Explains inside said

    evaluation-Explains : Explained (evaluation env chain action w resource args context)
    unfolding evaluation
    evaluation-Explains =
        elim (Bool-cases (Scope.covers chain.scope (capability action.kind resource))) [
          | inl inside ↦ rw inside (
              after_check-Explains (env.check w chain.subject action.relation resource)
                (env.elapsed_ms w.tick) inside refl)
          | inr outside ↦ rw outside (out_of_scope outside)
        ]

  -- Every decision that `decide` returns has one of these grounds: outside the actor's scope, DENY
  -- with `scope_excluded`; the engine raised, DENY with the exception's own reason, or with
  -- `engine_error` if it is no HocError; the engine relates the subject not, DENY with
  -- `not_related`; the policy raised, DENY with `policy_error`; the policy's verdict is no ALLOW,
  -- that verdict with its reason; or scope, engine and policy agree, ALLOW with `allowed`.
  pub decide-Explains :
      (w : World) (resource : String) (args : Option Args) (context : Option DecisionContext)
      {d : Decision}
      → (decide env chain action resource args context w).0 ≡ ok d
      → Explains w resource
          (or_default args env.no_args)
          (or_default context no_context)
          d.outcome
          d.reason
  decide-Explains w resource args context {d} h =
      let a : Args = or_default args env.no_args in
      let c : DecisionContext = or_default context no_context in
      let (good, same) = decide-eq-ok env chain action w resource args context h in
      let con =
        conclude-Concluded env chain action (after env chain action w resource) resource [] args
          (evaluation env chain action w resource a c) {d = d} (rw same at h) in
      rw (con.outcome, con.reason) (evaluation-Explains w resource a c)
