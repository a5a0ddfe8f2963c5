-- ===== src/Read/Kept.antt =====
-- The filter keeps an item only if its document passes the token, the scope, the engine and the
-- policy, and every other item is dropped.
use headofcontext.Prelude.{
  ◌≡◌, sym, ap, ◌∙◌, Member, subst, inl, inr, String, Bool, true, false, Option, none, some, List,
  [], ◌∷◌, ◌==◌, Dict, lookup, insert, filter, filter-All, is_empty, arith, All, All-of_map,
  All-Member, Bool-cases, Option-cases, eq_iff, if◌then◌else◌,
}
use headofcontext.Prelude.Sorted.{sorted_set}
use headofcontext.Core.Errors.{Result, ok, Result-cases}
use headofcontext.Core.Chain.{PrincipalChain}
use headofcontext.Core.Decision.{Outcome, allow, deny, Action, Decision, no_context}
use headofcontext.Core.Decider.Each.{decide_each}
use headofcontext.Core.Decider.Each.Settled.{Grounds}
use headofcontext.Core.Decider.Each.Granted.{Granted, decide_each-Granted}
use headofcontext.Memory.Parts.{ResourcePermits}
use headofcontext.Read.{
  Strategy, FilterEnv, reference, is_member, token_refusals, candidates_of, all_denied,
  with_decisions, with_outcomes, is_allowed, kept_items, via_list_objects, is_list_objects,
  outcomes_of,
}
use headofcontext.Read.References.{Refers, reference-Refers}
use headofcontext.Read.Permitted.{TokenPasses, token_refusals_passes, candidates_within}
use headofcontext.World.{World, Env, pure, ◌>>=◌}
use headofcontext.World.Returns.{bind_ok, pure_ok, gets_ok}

module _ {Args : Type 0} (env : Env Args) (outside : FilterEnv) (chain : PrincipalChain)
    (action : Action) (permits : Option ResourcePermits) (begin : World) (refs : List String) where
  abbrev pub AreRefs : List String → Type 0
  AreRefs resources = All (λ s. Member s refs) resources

  -- The token lets the document pass, and a decision on it, one of those on some of the references,
  -- has its grounds.
  abbrev pub Readable : String → Type 0
  Readable r =
      TokenPasses permits refs r
      × ((resources : List String) × AreRefs resources
          × Grounds env chain action env.no_args no_context begin resources r)

  -- An outcome that says ALLOW is about a readable document.
  abbrev pub Sound : String × Outcome → Type 0
  Sound (r, o) = o ≡ allow → Readable r

  insert-Sound :
      (r : String) (o : Outcome) (outcomes : Dict Outcome)
      → (o ≡ allow → Readable r)
      → All Sound outcomes
      → All Sound (insert r o outcomes)
  unfolding insert
  insert-Sound r o [] sound known = (sound, tt)
  insert-Sound r o ((j, v) ∷ rest) sound known = elim (Bool-cases (j == r)) [
    | inl same ↦ rw same (λ a. subst Readable (sym ((eq_iff j r).0 same)) (sound a), known.1)
    | inr differ ↦ rw differ (known.0, insert-Sound r o rest sound known.1)
  ]

  lookup-Sound :
      (r : String) (outcomes : Dict Outcome)
      → All Sound outcomes
      → is_allowed outcomes (some r) ≡ true
      → Readable r
  unfolding is_allowed lookup
  lookup-Sound r [] known h = absurd (ground arith)
  lookup-Sound r ((j, v) ∷ rest) known h = elim (Bool-cases (j == r)) [
    | inl same ↦ subst Readable ((eq_iff j r).0 same) (known.0 (ground arith))
    | inr differ ↦ lookup-Sound r rest known.1 (ground arith)
  ]

  all_denied-Sound : (refs : List String) → All Sound (all_denied refs)
  unfolding all_denied
  all_denied-Sound [] = tt
  all_denied-Sound (r ∷ rest) =
      insert-Sound r deny (all_denied rest) (λ a. absurd (ground arith)) (all_denied-Sound rest)

  with_decisions-Sound :
      (ds : List Decision) (outcomes : Dict Outcome)
      → All (λ (d : Decision). d.outcome ≡ allow → Readable d.resource) ds
      → All Sound outcomes
      → All Sound (with_decisions ds outcomes)
  unfolding with_decisions
  with_decisions-Sound [] outcomes granted known = known
  with_decisions-Sound (d ∷ rest) outcomes granted known =
      with_decisions-Sound rest (insert d.resource d.outcome outcomes) granted.1
        (insert-Sound d.resource d.outcome outcomes granted.0 known)

  with_outcomes-Sound :
      (others outcomes : Dict Outcome)
      → All Sound others
      → All Sound outcomes
      → All Sound (with_outcomes others outcomes)
  unfolding with_outcomes
  with_outcomes-Sound [] outcomes h known = known
  with_outcomes-Sound ((r, o) ∷ rest) outcomes h known =
      with_outcomes-Sound rest (insert r o outcomes) h.1 (insert-Sound r o outcomes h.0 known)

  pair_up :
      (ds : List Decision) (resources : List String)
      → All (λ (d : Decision). TokenPasses permits refs d.resource) ds
      → AreRefs resources
      → All (Granted env chain action env.no_args no_context begin resources) ds
      → All (λ (d : Decision). d.outcome ≡ allow → Readable d.resource) ds
  pair_up [] resources passes within granted = tt
  pair_up (d ∷ rest) resources passes within granted = (
    λ a. (passes.0, (resources, within, granted.0.grounds a)),
    pair_up rest resources passes.1 within granted.1,
  )

  decide_each-Sound :
      (resources : List String) (audit_each : Bool) {ds : List Decision} {v : World}
      → All (TokenPasses permits refs) resources
      → AreRefs resources
      → decide_each env chain action resources audit_each none none begin ≡ (ok ds, v)
      → All (λ (d : Decision). d.outcome ≡ allow → Readable d.resource) ds
  decide_each-Sound resources audit_each {ds} passes within h =
      let (same, granted) =
        decide_each-Granted env chain action resources audit_each none none begin h in
      pair_up ds resources
        (All-of_map (TokenPasses permits refs) (λ (d : Decision). d.resource) ds
          (subst (All (TokenPasses permits refs)) (sym same) passes))
        within granted

  via_list_objects-Sound :
      (candidates : List String) {outcomes : Dict Outcome} {v : World}
      → All (TokenPasses permits refs) candidates
      → AreRefs candidates
      → via_list_objects env outside chain action candidates begin ≡ (ok outcomes, v)
      → All Sound outcomes
  unfolding via_list_objects
  via_list_objects-Sound candidates {outcomes} passes within h =
      let (answer, u, e, h1) = bind_ok _ _ begin h in
      elim (Result-cases answer) [
        | inr (x, failed) ↦
            subst (All Sound) (sym (pure_ok (all_denied candidates) u (rw failed at h1)).0)
              (all_denied-Sound candidates)
        | inl (visible, listed) ↦ searched visible u (gets_ok _ begin e).1 (rw listed at h1)
      ]
    where
      searched :
          (visible : List String) (u : World) {v : World}
          → u ≡ begin
          → (decide_each env chain action
                  (filter (λ c. is_member c visible) candidates)
                  false
                  none
                  none
                >>= λ decisions. pure (with_decisions decisions (all_denied candidates)))
              u
            ≡ (ok outcomes, v)
          → All Sound outcomes
      searched visible u still k =
          let listed = filter (λ c. is_member c visible) candidates in
          let (ds, u2, e2, k2) =
            bind_ok (decide_each env chain action listed false none none) _ u k in
          subst (All Sound) (sym (pure_ok (with_decisions ds (all_denied candidates)) u2 k2).0) (
            with_decisions-Sound ds (all_denied candidates)
              (decide_each-Sound listed false
                (filter-All (TokenPasses permits refs) (λ c. is_member c visible) candidates
                  (λ r m i. All-Member (TokenPasses permits refs) passes m))
                (filter-All (λ s. Member s refs) (λ c. is_member c visible) candidates
                  (λ r m i. All-Member (λ s. Member s refs) within m))
                (ap (decide_each env chain action listed false none none) (sym still) ∙ e2))
              (all_denied-Sound candidates))

  outcomes_of-Sound :
      (per_item_audit : Bool) (how : Strategy) (candidates : List String) (start : Dict Outcome)
      {outcomes : Dict Outcome} {v : World}
      → All (TokenPasses permits refs) candidates
      → AreRefs candidates
      → All Sound start
      → outcomes_of env outside chain action per_item_audit how candidates start begin
        ≡ (ok outcomes, v)
      → All Sound outcomes
  unfolding outcomes_of
  outcomes_of-Sound per_item_audit how candidates start {outcomes} passes within known h =
      elim (Bool-cases (is_list_objects how)) [
        | inl listed ↦
            let (found, u, e, h1) =
              bind_ok (via_list_objects env outside chain action candidates) _ begin
                (rw listed at h) in
            subst (All Sound) (sym (pure_ok (with_outcomes found start) u h1).0) (
              with_outcomes-Sound found start (via_list_objects-Sound candidates passes within e)
                known)
        | inr batched ↦
            let (ds, u, e, h1) =
              bind_ok (decide_each env chain action candidates per_item_audit none none) _ begin
                (rw batched at h) in
            subst (All Sound) (sym (pure_ok (with_decisions ds start) u h1).0) (
              with_decisions-Sound ds start
                (decide_each-Sound candidates per_item_audit passes within e) known)
      ]

  pub filtered-Sound :
      (per_item_audit : Bool) (how : Strategy) (refused : List String) (w : World)
      {outcomes : Dict Outcome} {v : World}
      → token_refusals permits (sorted_set refs) ≡ ok refused
      → w ≡ begin
      → (if is_empty (candidates_of refs refused)
            then pure (all_denied refused)
            else outcomes_of env outside chain action per_item_audit how
                (candidates_of refs refused)
                (all_denied refused))
          w
        ≡ (ok outcomes, v)
      → All Sound outcomes
  filtered-Sound per_item_audit how refused w {outcomes} said same h =
      let candidates = candidates_of refs refused in
      let step =
        if is_empty candidates
        then pure (all_denied refused)
        else outcomes_of env outside chain action per_item_audit how candidates
            (all_denied refused) in
      let k = ap step (sym same) ∙ h in
      elim (Bool-cases (is_empty candidates)) [
        | inl nothing ↦
            subst (All Sound) (sym (pure_ok (all_denied refused) begin (rw nothing at k)).0)
              (all_denied-Sound refused)
        | inr some_left ↦
            outcomes_of-Sound per_item_audit how candidates (all_denied refused)
              (token_refusals_passes permits refs refused said) (candidates_within refs refused)
              (all_denied-Sound refused) (rw some_left at k)
      ]

  -- The item's reference is that of a readable document.
  abbrev pub ReadableItem : {Item : Type 0} → (Item → Result (Option String)) → Item → Type 0
  ReadableItem extract item = (r : String) × Refers extract item r × Readable r

  pub kept_items-Sound :
      {Item : Type 0} (extract : Item → Result (Option String)) (outcomes : Dict Outcome)
      (items : List Item)
      → All Sound outcomes
      → All (ReadableItem extract) (kept_items extract outcomes items)
  unfolding kept_items is_allowed
  kept_items-Sound extract outcomes [] known = tt
  kept_items-Sound extract outcomes (item ∷ rest) known =
      let later = kept_items-Sound extract outcomes rest known in
      elim (Option-cases (reference extract item)) [
        | inl invalid ↦ rw invalid later
        | inr (r, valid) ↦ elim (Bool-cases (is_allowed outcomes (some r))) [
          | inr denied ↦ rw (valid, denied) later
          | inl allows ↦
              rw (valid, allows)
                (
                  (r, reference-Refers extract item r valid, lookup-Sound r outcomes known allows),
                  later,
                )
        ]
      ]
