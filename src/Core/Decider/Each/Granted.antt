-- ===== src/Core/Decider/Each/Granted.antt =====
-- `decide_each`: one decision for each resource in order, and ALLOW only with its grounds.
use headofcontext.Prelude.{
  ◌≡◌, refl, sym, ◌∙◌, ap, subst, inl, inr, ℕ, suc, ◌+◌, String, Bool, Option, some, List, [], ◌∷◌,
  map, nat_eq, arith, All, Bool-cases,
}
use headofcontext.Core.Errors.{ok, Result-cases}
use headofcontext.Core.Scope
use headofcontext.Core.Scope.{Scope}
use headofcontext.Core.Chain.{PrincipalChain}
use headofcontext.Core.Decision.{allow, Action, DecisionContext}
use headofcontext.Core.Decider.{Evaluation, denied, batch_limit}
use headofcontext.Core.Decider.Laws.{capability, scope_covers_lem}
use headofcontext.Core.Decider.Each.{
  Outcomes, find, build_decisions, decide_each, partition_scope, slices, check_chunks,
}
use headofcontext.World.{World, Env, lift, now, ◌>>=◌}
use headofcontext.World.Logged.{Quiet, Quiet-refl}
use headofcontext.World.Returns.{bind_ok, lift_ok, pure_ok}
use headofcontext.Core.Decision.{Decision, no_context}
use headofcontext.Core.Decider.All.{ArePatterns, validate_all-ok}
use headofcontext.Core.Decider.Each.Slices.{get_elem?, slices-All, slices-size}
use headofcontext.Core.Decider.Each.Settled.{Grounds, Asked, Founded, check_chunks_ok}
use headofcontext.Prelude.{or_default, is_empty, is_empty_nil}
use headofcontext.Prelude.Int.{ℤ}

-- The texts of the list stand in `f` from some place on.
abbrev Indexed : (ℕ → Option String) → ℕ → List String → Type 0
Indexed f index [] = Unit
Indexed f index (item ∷ rest) = (f index ≡ some item) × Indexed f (index + 1) rest

Indexed-shift :
    (f : ℕ → Option String) (index : ℕ) (items : List String)
    → ((j : ℕ) → f (index + j) ≡ get_elem? items j)
    → Indexed f index items
Indexed-shift f index [] h = tt
Indexed-shift f index (item ∷ rest) h =
    let e0 : index + 0 ≡ index = omega arith in
    (
      ap f (sym e0) ∙ h 0,
      Indexed-shift f (index + 1) rest
          (λ j. let e1 : index + 1 + j ≡ index + suc j = omega arith in ap f e1 ∙ h (suc j)),
    )

pub Indexed-all : (items : List String) → Indexed (get_elem? items) 0 items
Indexed-all items =
    Indexed-shift (get_elem? items) 0 items
      (λ j. let e : 0 + j ≡ j = omega arith in ap (get_elem? items) e)

module _ {Args : Type 0} (env : Env Args) (chain : PrincipalChain) (action : Action) (args : Args)
    (context : DecisionContext) (start : World) (resources : List String) where
  abbrev IsAsked : ℕ × String → Type 0
  IsAsked = Asked env chain action args context start resources

  abbrev IsFounded : ℕ × Evaluation → Type 0
  IsFounded = Founded env chain action args context start resources

  partition_scope_ok :
      (index : ℕ) (items : List String) {to_check : List (ℕ × String)} {outcomes : Outcomes}
      → ArePatterns items
      → Indexed (get_elem? resources) index items
      → partition_scope chain.scope action.kind index items ≡ ok (to_check, outcomes)
      → All IsAsked to_check × All IsFounded outcomes
  unfolding partition_scope
  partition_scope_ok index [] {to_check} {outcomes} good at h =
      let e1 : [] ≡ to_check = ground arith in
      let e2 : [] ≡ outcomes = ground arith in
      (subst (All IsAsked) e1 tt, subst (All IsFounded) e2 tt)
  partition_scope_ok index (item ∷ rest) {to_check} {outcomes} good at h =
      let one = scope_covers_lem chain.scope action.kind item good.0 in
      elim (Result-cases (partition_scope chain.scope action.kind (index + 1) rest)) [
        | inr (x, bad) ↦ absurd (ground arith)
        | inl ((asked, others), e) ↦
            let (ih1, ih2) = partition_scope_ok (index + 1) rest good.1 at.1 e in
            elim (Bool-cases (Scope.covers chain.scope (capability action.kind item))) [
              | inl inside ↦
                  let e1 : (index, item) ∷ asked ≡ to_check = ground arith in
                  let e2 : others ≡ outcomes = ground arith in
                  (subst (All IsAsked) e1 ((at.0, inside), ih1), subst (All IsFounded) e2 ih2)
              | inr outside ↦
                  let e1 : asked ≡ to_check = ground arith in
                  let e2 : (index, denied "scope_excluded" 0) ∷ others ≡ outcomes = ground arith in
                  (
                    subst (All IsAsked) e1 ih1,
                    subst (All IsFounded) e2 (λ a. absurd (ground arith), ih2),
                  )
            ]
      ]

  find_ok :
      (index : ℕ) (outcomes : Outcomes) {e : Evaluation}
      → All IsFounded outcomes
      → find index outcomes ≡ ok e
      → IsFounded (index, e)
  unfolding find
  find_ok index [] known h = absurd (ground arith)
  find_ok index ((i, x) ∷ rest) {e} known h = elim (Bool-cases (nat_eq i index)) [
    | inl same ↦
        let e1 : i ≡ index = ground arith in
        let e2 : x ≡ e = ground arith in
        subst (λ (p : ℕ × Evaluation). IsFounded p) (ap (λ j. (j, x)) e1 ∙ ap (λ y. (index, y)) e2)
          known.0
    | inr differ ↦ find_ok index rest {e = e} known.1 (ground arith)
  ]

  -- A decision about the chain, which says ALLOW only with its grounds.
  pub record Granted (d : Decision) : Type 0 where
    pub same_chain : d.chain ≡ chain
    pub grounds :
        d.outcome ≡ allow → Grounds env chain action args context start resources d.resource

  entry_granted :
      (index : ℕ) (item : String) (e : Evaluation)
      → get_elem? resources index ≡ some item
      → IsFounded (index, e)
      → e.outcome ≡ allow
      → Grounds env chain action args context start resources item
  entry_granted index item e at known a =
      let (found, is, grounds) = known a in
      let same : found ≡ item = ground arith in
      subst (Grounds env chain action args context start resources) same grounds

  build_decisions_ok :
      (call_args : Option Args) (audit_each : Bool) (timestamp : ℤ) (outcomes : Outcomes)
      (index : ℕ) (items : List String) (w : World) {ds : List Decision} {v : World}
      → Indexed (get_elem? resources) index items
      → All IsFounded outcomes
      → build_decisions env chain action call_args audit_each timestamp outcomes index items w
        ≡ (ok ds, v)
      → (map (λ (d : Decision). d.resource) ds ≡ items) × All Granted ds
  unfolding build_decisions
  build_decisions_ok call_args audit_each timestamp outcomes index [] w {ds} at known h =
      let e = (pure_ok [] w h).0 in
      (ap (map (λ (d : Decision). d.resource)) e, subst (All Granted) (sym e) tt)
  build_decisions_ok call_args audit_each timestamp outcomes index (item ∷ rest) w {ds} at known h =
      let (e, u, e1, h1) = bind_ok _ _ w h in
      let (decision_id, u2, e2, h2) = bind_ok _ _ u h1 in
      let (t, u3, e3, h3) = bind_ok _ _ u2 h2 in
      let (later, u4, e4, h4) =
        bind_ok
          (build_decisions env chain action call_args audit_each timestamp outcomes (index + 1)
            rest)
          _ u3 h3 in
      let founded = find_ok index outcomes known (lift_ok _ w e1).0 in
      let (ih1, ih2) =
        build_decisions_ok call_args audit_each timestamp outcomes (index + 1) rest u3 at.1 known
          e4 in
      let same = (pure_ok _ u4 h4).0 in
      (
        ap (map (λ (d : Decision). d.resource)) same ∙ ap (◌∷◌ item) ih1,
        subst (All Granted) (sym same) (
          record { same_chain = refl; grounds = λ a. entry_granted index item e at.0 founded a },
          ih2,
        ),
      )

module _ {Args : Type 0} (env : Env Args) (chain : PrincipalChain) (action : Action) where
  -- `decide_each` returns one decision for each resource, in order. Each is about the chain, and one
  -- that says ALLOW has its grounds: the actor's scope covers the resource; the engine, asked in
  -- this call about at most fifty of the resources, all in the scope, gave one answer for each, and
  -- in the place of that resource that the subject is related to it, when the stores and the
  -- journal were as the call found them; and the policy, if there is one, answers ALLOW.
  pub decide_each-Granted :
      (resources : List String) (audit_each : Bool) (args : Option Args)
      (context : Option DecisionContext) (w : World) {ds : List Decision} {v : World}
      → decide_each env chain action resources audit_each args context w ≡ (ok ds, v)
      → (map (λ (d : Decision). d.resource) ds ≡ resources)
        × All
            (Granted env chain action
              (or_default args env.no_args)
              (or_default context no_context)
              w
              resources)
            ds
  unfolding decide_each
  decide_each-Granted resources audit_each args context w {ds} {v} h =
      let a : Args = or_default args env.no_args in
      let c : DecisionContext = or_default context no_context in
      let (t1, u1, e1, h1) = bind_ok _ _ w h in
      let (t2, u2, e2, h2) = bind_ok _ _ u1 h1 in
      elim (Bool-cases (is_empty resources)) [
        | inl nothing ↦
            let e = (pure_ok [] u2 (rw nothing at h2)).0 in
            (
              ap (map (λ (d : Decision). d.resource)) e ∙ sym (is_empty_nil resources nothing),
              subst (All (Granted env chain action a c w resources)) (sym e) tt,
            )
        | inr some_left ↦
            decided a c (validate_all-ok resources (lift_ok _ u1 e2).0) u2
              ((lift_ok _ u1 e2).1 ∙ (lift_ok _ w e1).1) (rw some_left at h2)
      ]
    where
      decided :
          (a : Args) (c : DecisionContext)
          → ArePatterns resources
          → (u : World) → u ≡ w
          → (lift (partition_scope chain.scope action.kind 0 resources) >>= λ parts.
                check_chunks env chain action a c (slices batch_limit parts.0) parts.1
                >>= λ outcomes. now env >>= λ timestamp.
                    build_decisions env chain action args audit_each timestamp outcomes 0 resources)
              u
            ≡ (ok ds, v)
          → (map (λ (d : Decision). d.resource) ds ≡ resources)
            × All (Granted env chain action a c w resources) ds
      decided a c patterns u still k =
          let ((to_check, outside), u3, e3, h3) = bind_ok _ _ u k in
          let (outcomes, u4, e4, h4) =
            bind_ok (check_chunks env chain action a c (slices batch_limit to_check) outside) _ u3
              h3 in
          let (timestamp, u5, e5, h5) = bind_ok (now env) _ u4 h4 in
          let (asked, excluded) =
            partition_scope_ok env chain action a c w resources 0 resources patterns
              (Indexed-all resources) (lift_ok _ u e3).0 in
          let founded =
            check_chunks_ok env chain action a c w resources (slices batch_limit to_check) outside
              u3 (subst (Quiet w) (sym ((lift_ok _ u e3).1 ∙ still)) (Quiet-refl w))
              (slices-size to_check)
              (slices-All (Asked env chain action a c w resources) batch_limit to_check asked)
              excluded e4 in
          build_decisions_ok env chain action a c w resources args audit_each timestamp outcomes 0
            resources u5 (Indexed-all resources) founded h5
