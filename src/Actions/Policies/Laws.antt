-- ===== src/Actions/Policies/Laws.antt =====
-- The composite policy is as strict as its strictest member, and an approval is asked for unless
-- the context carries one.
use headofcontext.Prelude.{
  ◌≡◌, refl, sym, ◌∙◌, ap, ◌≤◌, ◌↔◌, ◌⊎◌, inl, inr, String, true, none, some, List, [], ◌∷◌, arith,
  All, any,
}
use headofcontext.Core.Errors.{ok, Result-cases}
use headofcontext.Core.Refs.{is_resource_pattern}
use headofcontext.Core.Capability
use headofcontext.Core.Capability.{Kind, Capability, kind_eq}
use headofcontext.Core.Chain.{PrincipalChain}
use headofcontext.Core.Decision.{
  require_approval, Action, Verdict, severity, policy_allowed, most_restrictive, DecisionContext,
  Policy,
}
use headofcontext.Actions.Policies.{
  matches, is_outside, combine_from, composite_evaluate, RequireApproval, require_approval_evaluate,
  answer,
}

most_restrictive-severity :
    (a b : Verdict)
    → (severity a.outcome ≤ severity (most_restrictive a b).outcome)
      × (severity b.outcome ≤ severity (most_restrictive a b).outcome)
unfolding most_restrictive
most_restrictive-severity a b = ground arith

most_restrictive-cases : (a b : Verdict) → (most_restrictive a b ≡ a) ⊎ (most_restrictive a b ≡ b)
unfolding most_restrictive
most_restrictive-cases a b = ground arith

module _ {Args : Type 0} (chain : PrincipalChain) (action : Action) (resource : String)
    (args : Args) (context : DecisionContext) where
  -- The policy answered `v`.
  abbrev pub Answers : Policy Args → Verdict → Type 0
  Answers p v = p chain action resource args context ≡ ok v

  -- Every policy answered, with at most this severity.
  abbrev pub AllAtMost : Verdict → List (Policy Args) → Type 0
  AllAtMost r = All (λ p. (v : Verdict) × Answers p v × (severity v.outcome ≤ severity r.outcome))

  -- One of the policies answered `r`.
  pub data SomeAnswers (r : Verdict) : List (Policy Args) → Type 0 where
    first : {p : Policy Args} {ps : List (Policy Args)} → Answers p r → SomeAnswers r (p ∷ ps)
    later : {p : Policy Args} {ps : List (Policy Args)} → SomeAnswers r ps → SomeAnswers r (p ∷ ps)

  combine_from_lem :
      (verdict r : Verdict) (policies : List (Policy Args))
      → combine_from verdict policies chain action resource args context ≡ ok r
      → (severity verdict.outcome ≤ severity r.outcome)
        × AllAtMost r policies
        × ((r ≡ verdict) ⊎ SomeAnswers r policies)
  unfolding combine_from
  combine_from_lem verdict r [] h = (ground arith, tt, inl (ground arith))
  combine_from_lem verdict r (p ∷ rest) h =
      elim (Result-cases (p chain action resource args context)) [
        | inr (e, raised) ↦ absurd (ground arith)
        | inl (v, answered) ↦
            let (low, all_low, origin) =
              combine_from_lem (most_restrictive verdict v) r rest (ground arith) in
            let (left, right) = most_restrictive-severity verdict v in
            (
              omega arith,
              ((v, answered, omega arith), all_low),
              elim origin [
                | inr found ↦ inr (later found)
                | inl same ↦ elim (most_restrictive-cases verdict v) [
                  | inl old ↦ inl (same ∙ old)
                  | inr new ↦ inr (first (answered ∙ ap ok (sym (same ∙ new))))
                ]
              ],
            )
      ]

  -- When the composite answers, every policy was asked and answered, none more severely than the
  -- composite, and the composite's verdict is ALLOW by default or that of one of the policies. So
  -- it answers ALLOW only if all of them do: a policy can only lower an outcome.
  pub composite_evaluate_lem :
      (r : Verdict) (policies : List (Policy Args))
      → Answers (composite_evaluate policies) r
      → AllAtMost r policies × ((r ≡ policy_allowed) ⊎ SomeAnswers r policies)
  unfolding composite_evaluate
  composite_evaluate_lem r policies h =
      let (a, b, c) = combine_from_lem policy_allowed r policies h in (b, c)

  matches_lem :
      (patterns : List Capability)
      → is_resource_pattern resource ≡ true
      → matches patterns resource
        ≡ ok (
            any
              (λ p. Capability.covers p (record { kind = Kind.act; resource = resource }))
              patterns)
  unfolding matches Capability.make
  matches_lem [] h = refl
  matches_lem (p ∷ rest) h = ground (arith, matches_lem rest h)

  -- For a well-formed resource, the policy asks for an approval exactly when the action is an ACT on
  -- a tool that one of its patterns covers, its condition, if it has one, answers True, and the
  -- context carries no approval; when it asks, its reason is the configured one.
  pub require_approval_evaluate_iff :
      (p : RequireApproval Args) {r : Verdict}
      → is_resource_pattern resource ≡ true
      → Answers (require_approval_evaluate p) r
      → ((r.outcome ≡ require_approval) ↔ (
          (action.kind ≡ Kind.act)
          × (any
                (λ c. Capability.covers c (record { kind = Kind.act; resource = resource }))
                p.patterns
              ≡ true)
          × ((answer p.when args ≡ none) ⊎ (answer p.when args ≡ some (ok true)))
          × (context.approval_id ≡ none)))
        × (r.outcome ≡ require_approval → r.reason ≡ p.reason)
  unfolding require_approval_evaluate is_outside
  require_approval_evaluate_iff p {r} good h =
      let m = matches_lem p.patterns good in
      (
        (
          λ o. (ground (arith, m), ground (arith, m), ground (arith, m), ground (arith, m)),
          λ (k, c, when, free). elim when [
            | inl unconditional ↦ ground (arith, m)
            | inr holds ↦ ground (arith, m)
          ],
        ),
        λ o. ground (arith, m),
      )
