-- ===== src/Core/Decider/Laws.antt =====
-- `decide` and `decide_all`: when the outcome is ALLOW, and what the journal then holds.
use headofcontext.Prelude.{
  ◌≡◌, refl, sym, ◌∙◌, ◌↔◌, inl, inr, ℕ, String, Bool, true, false, Option, none, some, List, [],
  ◌∷◌, ◌++◌, ◌+◌, ap, arith, or_default, Bool-cases, Option-cases, if◌then◌else◌,
}
use headofcontext.Core.Errors.{Result, ok, err}
use headofcontext.Core.Refs.{is_ref, is_resource_pattern, validate_ref, validate_resource_pattern}
use headofcontext.Core.Capability
use headofcontext.Core.Capability.{Kind, Capability}
use headofcontext.Core.Scope
use headofcontext.Core.Scope.{Scope}
use headofcontext.Core.Chain.{PrincipalChain}
use headofcontext.Core.Decision.{allow, Action, Decision, Verdict, DecisionContext, no_context}
use headofcontext.Core.Events.{from_decision}
use headofcontext.Core.Decider.{
  Evaluation, denied, scope_covers, policy_verdict, hash_args, settle_policy, after_check, evaluate,
  conclude, decide,
}
use headofcontext.World.{World, Env, ticked, record_event, ◌>>=◌}

abbrev pub capability : Kind → String → Capability
capability kind resource = record { kind = kind; resource = resource }

pub scope_covers_lem :
    (s : Scope) (k : Kind) (r : String)
    → is_resource_pattern r ≡ true
    → scope_covers s k r ≡ ok (Scope.covers s (capability k r))
unfolding scope_covers Capability.make
scope_covers_lem s k r h = ground arith

module _ {Args : Type 0} (env : Env Args) (chain : PrincipalChain) (action : Action) where
  -- No policy, or one that answers ALLOW.
  abbrev pub PolicyPasses : String → Args → DecisionContext → Type 0
  PolicyPasses resource args context = elim (env.policy) [
    | none ↦ Unit
    | some p ↦ (v : Verdict) × (p chain action resource args context ≡ ok v) × (v.outcome ≡ allow)
  ]

  settle_policy-allow :
      (r : Result Verdict)
      → (settle_policy r).outcome ≡ allow ↔ ((v : Verdict) × (r ≡ ok v) × (v.outcome ≡ allow))
  settle_policy-allow (ok v) = (λ h. (v, refl, ground arith), λ (v', e, h). ground arith)
  settle_policy-allow (err e) = (λ h. absurd (ground arith), λ (v', e, h). absurd (ground arith))

  pub policy_verdict-allow_iff :
      (resource : String) (args : Args) (context : DecisionContext)
      → ((policy_verdict env chain action resource args context).outcome ≡ allow)
        ↔ PolicyPasses resource args context
  unfolding policy_verdict
  policy_verdict-allow_iff resource args context = elim (Option-cases (env.policy)) [
    | inl without ↦ rw without (λ h. tt, λ h. refl)
    | inr (p, e) ↦ rw e (settle_policy-allow (p chain action resource args context))
  ]

  -- What `evaluate` returns for a well-formed resource: the engine is asked only within the scope.
  unfoldable pub evaluation : World → String → Args → DecisionContext → Evaluation
  evaluation w resource args context =
      if Scope.covers chain.scope (capability action.kind resource)
      then after_check env chain action resource args context
          (env.check w chain.subject action.relation resource) (env.elapsed_ms w.tick)
      else denied "scope_excluded" 0

  abbrev pub after : World → String → World
  after w resource =
      if Scope.covers chain.scope (capability action.kind resource) then ticked w else w

  journal-after : (w : World) (resource : String) → (after w resource).journal ≡ w.journal
  journal-after w resource = ground arith

  evaluate_lem :
      (w : World) (resource : String) (args : Args) (context : DecisionContext)
      → is_resource_pattern resource ≡ true
      → evaluate env chain action resource args context w
        ≡ (ok (evaluation w resource args context), after w resource)
  unfolding evaluate evaluation ◌>>=◌
  evaluate_lem w resource args context h =
      rw (scope_covers_lem chain.scope action.kind resource h) (ground arith)

  after_check-allow_iff :
      (resource : String) (args : Args) (context : DecisionContext) (r : Result Bool) (ms : ℕ)
      → ((after_check env chain action resource args context r ms).outcome ≡ allow)
        ↔ ((r ≡ ok true) × PolicyPasses resource args context)
  unfolding after_check
  after_check-allow_iff resource args context (err e) ms =
      (λ h. absurd (ground arith), λ (h, p). absurd (ground arith))
  after_check-allow_iff resource args context (ok false) ms =
      (λ h. absurd (ground arith), λ (h, p). absurd (ground arith))
  after_check-allow_iff resource args context (ok true) ms =
      let both = policy_verdict-allow_iff resource args context in
      (λ h. (refl, both.0 h), λ (h, p). both.1 p)

  evaluation-allow_iff :
      (w : World) (resource : String) (args : Args) (context : DecisionContext)
      → ((evaluation w resource args context).outcome ≡ allow) ↔ (
          (Scope.covers chain.scope (capability action.kind resource) ≡ true)
          × (env.check w chain.subject action.relation resource ≡ ok true)
          × PolicyPasses resource args context)
  unfolding evaluation
  evaluation-allow_iff w resource args context =
      elim (Bool-cases (Scope.covers chain.scope (capability action.kind resource))) [
        | inl inside ↦
            let both =
              after_check-allow_iff resource args context
                (env.check w chain.subject action.relation resource) (env.elapsed_ms w.tick) in
            rw inside (
              λ h. let (related, passes) = both.0 h in (refl, related, passes),
              λ (c, related, passes). both.1 (related, passes),
            )
        | inr outside ↦
            rw outside (λ h. absurd (ground arith), λ (c, related, passes). absurd (ground arith))
      ]

  -- What a decision that was returned says, and that it was journaled.
  pub record Concluded (w : World) (resource : String) (args : Option Args) (e : Evaluation)
      (d : Decision) (w' : World) : Type 0 where
    pub outcome : d.outcome ≡ e.outcome
    pub reason : d.reason ≡ e.reason
    pub same_chain : d.chain ≡ chain
    pub same_resource : d.resource ≡ resource
    pub event_id : String
    pub journaled : w'.journal ≡ w.journal ++ from_decision d (hash_args env args) event_id ∷ []

  pub conclude-Concluded :
      (w : World) (resource : String) (resources : List String) (args : Option Args)
      (e : Evaluation) {d : Decision}
      → (conclude env chain action resource resources args e w).0 ≡ ok d
      → Concluded w resource args e d (conclude env chain action resource resources args e w).1
  unfolding conclude record_event ◌>>=◌
  conclude-Concluded w resource resources args e h = record {
    outcome = ground arith;
    reason = ground arith;
    same_chain = ground arith;
    same_resource = ground arith;
    event_id = env.uuid (w.tick + 1 + 1);
    journaled = ground arith;
  }

  -- `decide` returned: the inputs were well-formed and the rest is the conclusion.
  pub decide-eq-ok :
      (w : World) (resource : String) (args : Option Args) (context : Option DecisionContext)
      {d : Decision}
      → (decide env chain action resource args context w).0 ≡ ok d
      → (is_resource_pattern resource ≡ true)
        × (decide env chain action resource args context w
            ≡ conclude env chain action resource [] args
                (evaluation w resource
                  (or_default args env.no_args)
                  (or_default context no_context))
                (after w resource))
  unfolding decide validate_resource_pattern validate_ref ◌>>=◌
  decide-eq-ok w resource args context h =
      let a : Args = or_default args env.no_args in
      let c : DecisionContext = or_default context no_context in
      elim (Bool-cases (is_resource_pattern resource)) [
        | inr bad ↦ absurd (ground arith)
        | inl good ↦ elim (Bool-cases (is_ref chain.subject "user")) [
          | inr stranger ↦ absurd (ground arith)
          | inl user ↦ (good, rw (good, user, evaluate_lem w resource a c good))
        ]
      ]

  -- `decide` answers ALLOW exactly when the actor's scope covers the resource, the engine relates
  -- the chain's subject to it, and the policy, if there is one, answers ALLOW. The decision is
  -- about that resource and chain, and its event is the one that the journal gained.
  pub decide-allow_iff :
      (w : World) (resource : String) (args : Option Args) (context : Option DecisionContext)
      {d : Decision}
      → (decide env chain action resource args context w).0 ≡ ok d
      → ((d.outcome ≡ allow) ↔ (
          (Scope.covers chain.scope (capability action.kind resource) ≡ true)
          × (env.check w chain.subject action.relation resource ≡ ok true)
          × PolicyPasses resource (or_default args env.no_args) (or_default context no_context)))
        × (d.chain ≡ chain)
        × (d.resource ≡ resource)
        × ((event_id : String) × ((decide env chain action resource args context w).1.journal
              ≡ w.journal ++ from_decision d (hash_args env args) event_id ∷ []))
  decide-allow_iff w resource args context {d} h =
      let a : Args = or_default args env.no_args in
      let c : DecisionContext = or_default context no_context in
      let (good, same) = decide-eq-ok w resource args context h in
      let con =
        conclude-Concluded (after w resource) resource [] args (evaluation w resource a c) {d = d}
          (rw same at h) in
      let both = evaluation-allow_iff w resource a c in
      (
        (λ e. both.0 (sym con.outcome ∙ e), λ p. con.outcome ∙ both.1 p),
        con.same_chain,
        con.same_resource,
        (
          con.event_id,
          rw same (
              con.journaled
              ∙ ap (λ j. j ++ from_decision d (hash_args env args) con.event_id ∷ [])
                  (journal-after w resource)),
        ),
      )
