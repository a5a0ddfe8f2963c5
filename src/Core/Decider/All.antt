-- ===== src/Core/Decider/All.antt =====
-- `decide_all`: when every resource together is allowed.
use headofcontext.Prelude.{
  ◌≡◌, refl, sym, ◌∙◌, ap, ◌↔◌, ◌⊎◌, inl, inr, ℕ, String, Bool, true, false, not, ◌&&◌, Option,
  List, [], ◌∷◌, ◌++◌, arith, or_default, is_none, is_empty, Bool-cases, All, all, length, nat_eq,
  map,
}
use headofcontext.Core.Errors.{Result, ok, err, Result-cases}
use headofcontext.Core.Refs.{is_resource_pattern, validate_ref, validate_resource_pattern}
use headofcontext.Core.Scope
use headofcontext.Core.Scope.{Scope}
use headofcontext.Core.Capability.{Kind}
use headofcontext.Core.Chain.{PrincipalChain}
use headofcontext.Core.Decision.{allow, is_allow, Action, Decision, DecisionContext, no_context}
use headofcontext.Core.Decider.{
  Evaluation, scope_excludes, policy_verdict, settle_batch, batch, first_refusal, after_batch,
  evaluate_all, decide_all, validate_all, first_or,
}
use headofcontext.Core.Decider.Laws.{
  capability, scope_covers_lem, PolicyPasses, policy_verdict-allow_iff, conclude-Concluded,
}
use headofcontext.World.{World, Env, ◌>>=◌}

abbrev pub ArePatterns : List String → Type 0
ArePatterns = All (λ r. is_resource_pattern r ≡ true)

pub validate_all-ok : (items : List String) → validate_all items ≡ ok tt → ArePatterns items
unfolding validate_all validate_resource_pattern
validate_all-ok [] h = tt
validate_all-ok (r ∷ rest) h = elim (Bool-cases (is_resource_pattern r)) [
  | inl good ↦ (good, validate_all-ok rest (ground arith))
  | inr bad ↦ absurd (ground arith)
]

All-split {ℓ} :
    {A : Type ℓ} (P : A → Type 0) (xs ys : List A) → All P (xs ++ ys) → All P xs × All P ys
All-split P [] ys h = (tt, h)
All-split P (x ∷ xs) ys h = let (a, b) = All-split P xs ys h.1 in ((h.0, a), b)

scope_excludes_lem :
    (s : Scope) (k : Kind) (targets : List String)
    → ArePatterns targets
    → scope_excludes s k targets ≡ ok (not (all (λ t. Scope.covers s (capability k t)) targets))
unfolding scope_excludes
scope_excludes_lem s k [] h = refl
scope_excludes_lem s k (t ∷ rest) h =
    ground (arith, scope_covers_lem s k t, scope_excludes_lem s k rest h.1)

module _ {Args : Type 0} (env : Env Args) (chain : PrincipalChain) (action : Action) where
  first_refusal-allow_iff :
      (resources : List String) (args : Args) (context : DecisionContext) (ms : ℕ)
      → ((first_refusal env chain action resources args context ms).outcome ≡ allow)
        ↔ All (λ r. PolicyPasses env chain action r args context) resources
  unfolding first_refusal
  first_refusal-allow_iff [] args context ms = (λ h. tt, λ h. refl)
  first_refusal-allow_iff (r ∷ rest) args context ms =
      let here = policy_verdict-allow_iff env chain action r args context in
      let later = first_refusal-allow_iff rest args context ms in
      elim (Bool-cases (is_allow (policy_verdict env chain action r args context).outcome)) [
        | inl passes ↦ rw passes (λ h. (here.0 (ground arith), later.0 h), λ h. later.1 h.1)
        | inr fails ↦
            rw fails (λ h. absurd (ground arith), λ h. absurd (ground (arith, here.1 h.0)))
      ]

  -- The engine relates the subject to every resource: as many answers as questions, all true.
  abbrev pub AllRelated : World → List String → Type 0
  AllRelated w resources =
      (related : List Bool) × (env.batch_check w chain.subject
          (map (λ r. (action.relation, r)) resources)
        ≡ ok related)
      × (length related ≡ length resources)
      × (all (λ b. b) related ≡ true)

  after_batch-allow_iff :
      (resources : List String) (args : Args) (context : DecisionContext)
      (answer : Result (List Bool)) (ms : ℕ)
      → ((after_batch env chain action resources args context
            (settle_batch (length resources) answer)
            ms).outcome
          ≡ allow)
        ↔ (((related : List Bool) × (answer ≡ ok related)
              × (length related ≡ length resources)
              × (all (λ b. b) related ≡ true))
            × All (λ r. PolicyPasses env chain action r args context) resources)
  unfolding after_batch settle_batch
  after_batch-allow_iff resources args context (err e) ms =
      (λ h. absurd (ground arith), λ ((related, same, n, a), p). absurd (ground arith))
  after_batch-allow_iff resources args context (ok related) ms =
      elim (Bool-cases (nat_eq (length related) (length resources))) [
        | inr differ ↦
            rw differ (λ h. absurd (ground arith), λ ((r, same, n, a), p). absurd (ground arith))
        | inl fits ↦ elim (Bool-cases (all (λ b. b) related)) [
          | inr some_not ↦
              rw (fits, some_not)
                (λ h. absurd (ground arith), λ ((r, same, n, a), p). absurd (ground arith))
          | inl yes_all ↦
              let both = first_refusal-allow_iff resources args context ms in
              rw (fits, yes_all)
                (λ h. ((related, refl, ground arith, yes_all), both.0 h), λ h. both.1 h.1)
        ]
      ]

  -- What `decide_all` demands, for these scope targets.
  abbrev pub AllowsAll : World → List String → List String → Bool → Args → DecisionContext → Type 0
  AllowsAll w resources scope_targets explicit_scope args context =
      ((is_empty resources && not explicit_scope) ≡ false)
      × (all (λ t. Scope.covers chain.scope (capability action.kind t)) scope_targets ≡ true)
      × ((resources ≡ [])
          ⊎ (AllRelated w resources
              × All (λ r. PolicyPasses env chain action r args context) resources))

  -- The scope let the request pass.
  evaluate_all-inside :
      (w : World) (resources scope_targets : List String) (explicit_scope : Bool) (args : Args)
      (context : DecisionContext) {e : Evaluation}
      → scope_excludes chain.scope action.kind scope_targets ≡ ok false
      → (is_empty resources && not explicit_scope) ≡ false
      → (evaluate_all env chain action resources scope_targets explicit_scope args context w).0
        ≡ ok e
      → (e.outcome ≡ allow) ↔ (
          (resources ≡ [])
          ⊎ (AllRelated w resources
              × All (λ r. PolicyPasses env chain action r args context) resources))
  unfolding evaluate_all batch ◌>>=◌
  evaluate_all-inside w [] targets explicit args context {e} inside asked h =
      (λ a. inl refl, λ p. ground arith)
  evaluate_all-inside w (r ∷ rest) targets explicit args context {e} inside asked h =
      let answer = env.batch_check w chain.subject (map (λ r. (action.relation, r)) (r ∷ rest)) in
      let both = after_batch-allow_iff (r ∷ rest) args context answer (env.elapsed_ms w.tick) in
      let same : after_batch env chain action (r ∷ rest) args context
            (settle_batch (length (r ∷ rest)) answer) (env.elapsed_ms w.tick)
          ≡ e =
        ground arith in
      (
        λ a. inr (both.0 (ap (λ (x : Evaluation). x.outcome) same ∙ a)),
        λ p. elim p [
          | inl none_left ↦ absurd (ground arith)
          | inr related ↦ sym (ap (λ (x : Evaluation). x.outcome) same) ∙ both.1 related
        ],
      )

  evaluate_all-allow_iff :
      (w : World) (resources scope_targets : List String) (explicit_scope : Bool) (args : Args)
      (context : DecisionContext) {e : Evaluation}
      → ArePatterns scope_targets
      → (evaluate_all env chain action resources scope_targets explicit_scope args context w).0
        ≡ ok e
      → (e.outcome ≡ allow) ↔ AllowsAll w resources scope_targets explicit_scope args context
  unfolding evaluate_all batch ◌>>=◌
  evaluate_all-allow_iff w resources targets explicit args context {e} good h =
      let split = scope_excludes_lem chain.scope action.kind targets good in
      elim (Bool-cases (is_empty resources && not explicit)) [
        | inl nothing ↦ (λ a. absurd (ground arith), λ p. absurd (ground arith))
        | inr asked ↦
            elim (Bool-cases
              (all (λ t. Scope.covers chain.scope (capability action.kind t)) targets)) [
                | inr outside ↦ (λ a. absurd (ground arith), λ p. absurd (ground arith))
                | inl inside ↦
                    let both =
                      evaluate_all-inside w resources targets explicit args context {e = e}
                        (ground arith) asked h in
                    (λ a. (asked, inside, both.0 a), λ p. both.1 p.2)
              ]
      ]

  -- `decide_all` answers ALLOW exactly when there is something to decide, the actor's scope covers
  -- every scope target (the resources, unless told otherwise), and either there is no resource to
  -- relate, or the engine relates the subject to every resource and the policy, if there is one,
  -- answers ALLOW for each.
  pub decide_all-allow_iff :
      (w : World) (resources : List String) (scope_resources : Option (List String))
      (resource : Option String) (args : Option Args) (context : Option DecisionContext)
      {d : Decision}
      → (decide_all env chain action resources scope_resources resource args context w).0 ≡ ok d
      → (d.outcome ≡ allow)
        ↔ AllowsAll w resources
            (or_default scope_resources resources)
            (not (is_none scope_resources))
            (or_default args env.no_args)
            (or_default context no_context)
  unfolding decide_all validate_ref ◌>>=◌
  decide_all-allow_iff w resources scope_resources resource args context {d} h =
      let targets : List String = or_default scope_resources resources in
      let a : Args = or_default args env.no_args in
      let c : DecisionContext = or_default context no_context in
      let explicit : Bool = not (is_none scope_resources) in
      elim (Result-cases (validate_all (resources ++ targets))) [
        | inr (e, bad) ↦ absurd (ground arith)
        | inl (u, good) ↦
            let patterns =
              (All-split (λ r. is_resource_pattern r ≡ true) resources targets
                (validate_all-ok (resources ++ targets) good)).1 in
            elim (Result-cases (evaluate_all env chain action resources targets explicit a c w).0) [
              | inr (e, bad) ↦ absurd (ground arith)
              | inl (e, found) ↦
                  let both =
                    evaluate_all-allow_iff w resources targets explicit a c {e = e} patterns
                      found in
                  let v = (evaluate_all env chain action resources targets explicit a c w).1 in
                  let con =
                    conclude-Concluded env chain action v
                      (or_default resource (first_or "" resources)) resources args e {d = d}
                      (ground arith) in
                  (λ o. both.0 (sym con.outcome ∙ o), λ p. con.outcome ∙ both.1 p)
            ]
      ]
