-- ===== src/Core/Decider/Each/Settled.antt =====
-- `decide_each`: an entry of `outcomes` that says ALLOW has its grounds.
use headofcontext.Prelude.{
  ◌≡◌, ◌≤◌, refl, sym, ◌∙◌, ap, subst, inl, inr, ℕ, suc, String, Bool, true, false, Option, none,
  some, List, [], ◌∷◌, ◌++◌, map, length, nat_eq, arith, All, All-append, Member, here, there,
  Bool-cases, if◌then◌else◌,
}
use headofcontext.Core.Errors.{Result, ok, err, Result-cases}
use headofcontext.Core.Scope
use headofcontext.Core.Scope.{Scope}
use headofcontext.Core.Chain.{PrincipalChain}
use headofcontext.Core.Decision.{allow, Action, DecisionContext}
use headofcontext.Core.Decider.{
  Evaluation, denied, of_verdict, policy_verdict, settle_batch, engine_failure, batch,
}
use headofcontext.Core.Decider.Laws.{capability, PolicyPasses, policy_verdict-allow_iff}
use headofcontext.Core.Decider.Each.Slices.{get_elem?, zip, get_elem?-Member}
use headofcontext.Core.Decider.Each.{Outcomes, settle_chunk, check_chunk, check_chunks}
use headofcontext.World.{World, Env}
use headofcontext.World.Logged.{Quiet, Quiet-trans, IsQuiet, quiet_rules}
use headofcontext.Core.Decider.Total.{batch-IsQuiet}
use headofcontext.World.Returns.{bind_ok, lift_ok, gets_ok, pure_ok}

-- The engine's answer to one batch: a state of the call, with the stores and the journal that the
-- call found; at most fifty of the resources, each in the actor's scope; one answer for each.
pub record Answered {Args : Type 0} (env : Env Args) (chain : PrincipalChain) (action : Action)
    (w : World) (resources : List String) (u : World) (items : List String) (related : List Bool)
    : Type 0 where
  pub state : Quiet w u
  pub asked :
      All
        (λ item.
          Member item resources × (Scope.covers chain.scope (capability action.kind item) ≡ true))
        items
  pub size : length items ≤ 50
  pub said : env.batch_check u chain.subject (map (λ r. (action.relation, r)) items) ≡ ok related
  pub one_each : length related ≡ length items

module _ {Args : Type 0} (env : Env Args) (chain : PrincipalChain) (action : Action) (args : Args)
    (context : DecisionContext) (w : World) (resources : List String) where
  -- The engine answered, in the place of the resource in one of the batches, that the subject is
  -- related to it.
  abbrev pub EngineRelates : String → Type 0
  EngineRelates resource =
      (u : World) × (items : List String) × (related : List Bool) × Answered env chain action w
        resources u items related
      × Member (resource, true) (zip items related)

  -- Why a decision on the resource may say ALLOW.
  pub record Grounds (resource : String) : Type 0 where
    pub covered : Scope.covers chain.scope (capability action.kind resource) ≡ true
    pub related : EngineRelates resource
    pub passes : PolicyPasses env chain action resource args context

  abbrev pub Asked : ℕ × String → Type 0
  Asked (index, item) =
      (get_elem? resources index ≡ some item)
      × (Scope.covers chain.scope (capability action.kind item) ≡ true)

  abbrev pub Founded : ℕ × Evaluation → Type 0
  Founded (index, e) =
      e.outcome ≡ allow → (item : String) × (get_elem? resources index ≡ some item) × Grounds item

  settle_chunk_failed :
      (ms : ℕ) (reason : String) (related : List Bool) (chunk : List (ℕ × String)) {os : Outcomes}
      → settle_chunk env chain action args context ms (some reason) related chunk ≡ ok os
      → All Founded os
  unfolding settle_chunk
  settle_chunk_failed ms reason related [] {os} h =
      let e : [] ≡ os = ground arith in subst (All Founded) e tt
  settle_chunk_failed ms reason related ((index, item) ∷ rest) {os} h =
      elim (Result-cases
        (settle_chunk env chain action args context ms (some reason) related rest)) [
          | inr (x, bad) ↦ absurd (ground arith)
          | inl (later, settled) ↦
              let e : (index, denied reason ms) ∷ later ≡ os = ground arith in
              subst (All Founded) e
                (λ a. absurd (ground arith), settle_chunk_failed ms reason related rest settled)
        ]

  -- The entry of a target that the engine related, or not.
  settled_entry :
      (u : World) (items : List String) (answers : List Bool) (ms : ℕ) (b : Bool) (index : ℕ)
      (item : String)
      → Answered env chain action w resources u items answers
      → Asked (index, item)
      → (b ≡ true → Member (item, true) (zip items answers))
      → Founded (
        index,
        if b
            then of_verdict (policy_verdict env chain action item args context) ms
            else denied "not_related" ms,
      )
  settled_entry u items answers ms false index item said asked within a = absurd (ground arith)
  settled_entry u items answers ms true index item said asked within a = (
    item,
    asked.0,
    record {
      covered = asked.1;
      related = (u, items, answers, said, within refl);
      passes = (policy_verdict-allow_iff env chain action item args context).0 a;
    },
  )

  settle_chunk_ok :
      (u : World) (items : List String) (answers : List Bool)
      → Answered env chain action w resources u items answers
      → (ms : ℕ) (related : List Bool) (chunk : List (ℕ × String))
      → ((r : String)
          → Member (r, true) (zip (map (λ (t : ℕ × String). t.1) chunk) related)
          → Member (r, true) (zip items answers))
      → All Asked chunk
      → {os : Outcomes} → settle_chunk env chain action args context ms none related chunk ≡ ok os
      → All Founded os
  unfolding settle_chunk
  settle_chunk_ok u items answers said ms related [] within asked {os} h =
      let e : [] ≡ os = ground arith in subst (All Founded) e tt
  settle_chunk_ok u items answers said ms [] ((index, item) ∷ rest) within asked h =
      absurd (ground arith)
  settle_chunk_ok u items answers said ms (b ∷ more) ((index, item) ∷ rest) within asked {os} h =
      elim (Result-cases (settle_chunk env chain action args context ms none more rest)) [
        | inr (x, bad) ↦ absurd (ground arith)
        | inl (later, settled) ↦
            let here_now : Evaluation =
              if b
              then of_verdict (policy_verdict env chain action item args context) ms
              else denied "not_related" ms in
            let e : (index, here_now) ∷ later ≡ os = ground arith in
            subst (All Founded) e (
              settled_entry u items answers ms b index item said asked.0
                  (λ is. within item (here (ap (λ x. (item, x)) is))),
              settle_chunk_ok u items answers said ms more rest (λ r m. within r (there m)) asked.1
                  settled,
            )
      ]

  -- The items of a chunk whose targets are asked about.
  Asked-items :
      (chunk : List (ℕ × String))
      → All Asked chunk
      → All
          (λ item.
            Member item resources × (Scope.covers chain.scope (capability action.kind item) ≡ true))
          (map (λ (t : ℕ × String). t.1) chunk)
  Asked-items [] h = tt
  Asked-items ((index, item) ∷ rest) h =
      ((get_elem?-Member resources index item h.0.0, h.0.1), Asked-items rest h.1)

  length-items :
      (chunk : List (ℕ × String)) → length (map (λ (t : ℕ × String). t.1) chunk) ≡ length chunk
  length-items [] = refl
  length-items (t ∷ rest) = ap suc (length-items rest)

  settle_reply_ok :
      (u : World) (chunk : List (ℕ × String)) (ms : ℕ) (reply : Result (List Bool))
      → Quiet w u
      → length chunk ≤ 50
      → env.batch_check u chain.subject
          (map (λ r. (action.relation, r)) (map (λ (t : ℕ × String). t.1) chunk))
        ≡ reply
      → All Asked chunk
      → {os : Outcomes}
      → settle_chunk env chain action args context ms
          (settle_batch (length (map (λ (t : ℕ × String). t.1) chunk)) reply).1
          (settle_batch (length (map (λ (t : ℕ × String). t.1) chunk)) reply).0
          chunk
        ≡ ok os
      → All Founded os
  unfolding settle_batch
  settle_reply_ok u chunk ms (err x) quiet size said asked h =
      settle_chunk_failed ms (engine_failure x) [] chunk h
  settle_reply_ok u chunk ms (ok related) quiet size said asked h =
      let items = map (λ (t : ℕ × String). t.1) chunk in
      elim (Bool-cases (nat_eq (length related) (length items))) [
        | inr differ ↦ settle_chunk_failed ms "engine_error" [] chunk (rw differ at h)
        | inl fits ↦
            let answered : Answered env chain action w resources u items related = record {
              state = quiet;
              asked = Asked-items chunk asked;
              size = omega (arith, length-items chunk);
              said = said;
              one_each = ground arith;
            } in
            settle_chunk_ok u items related answered ms related chunk (λ r m. m) asked
              (rw fits at h)
      ]

  batch_ok :
      (items : List String) (u : World) {answer : List Bool × Option String} {v : World}
      → batch env chain.subject action.relation items u ≡ (ok answer, v)
      → answer
        ≡ settle_batch
            (length items)
            (env.batch_check u chain.subject (map (λ r. (action.relation, r)) items))
  unfolding batch
  batch_ok items u h =
      let (reply, u1, e, h1) = bind_ok _ _ u h in
      (pure_ok _ u1 h1).0 ∙ ap (settle_batch (length items)) (gets_ok _ u e).0

  check_chunk_ok :
      (chunk : List (ℕ × String)) (u : World) {os : Outcomes} {v : World}
      → Quiet w u
      → length chunk ≤ 50
      → All Asked chunk
      → check_chunk env chain action args context chunk u ≡ (ok os, v)
      → All Founded os
  unfolding check_chunk
  check_chunk_ok chunk u {os} quiet size asked h =
      let items = map (λ (t : ℕ × String). t.1) chunk in
      let (answer, u1, e, h1) = bind_ok (batch env chain.subject action.relation items) _ u h in
      let (ms, u2, e2, h2) = bind_ok _ _ u1 h1 in
      settle_reply_ok u chunk ms
        (env.batch_check u chain.subject (map (λ r. (action.relation, r)) items)) quiet size refl
        asked
        (subst
          (λ (a : List Bool × Option String).
            settle_chunk env chain action args context ms a.1 a.0 chunk ≡ ok os)
          (batch_ok items u e) (lift_ok _ u2 h2).0)

  check_chunk-IsQuiet :
      (chunk : List (ℕ × String)) → IsQuiet (check_chunk env chain action args context chunk)
  unfolding check_chunk
  check_chunk-IsQuiet chunk = search (quiet_rules, batch-IsQuiet) depth 8

  pub check_chunks_ok :
      (chunks : List (List (ℕ × String))) (outcomes : Outcomes) (u : World) {os : Outcomes}
      {v : World}
      → Quiet w u
      → All (λ (c : List (ℕ × String)). length c ≤ 50) chunks
      → All (All Asked) chunks
      → All Founded outcomes
      → check_chunks env chain action args context chunks outcomes u ≡ (ok os, v)
      → All Founded os
  unfolding check_chunks
  check_chunks_ok [] outcomes u quiet sizes asked known h =
      subst (All Founded) (sym (pure_ok outcomes u h).0) known
  check_chunks_ok (chunk ∷ rest) outcomes u quiet sizes asked known h =
      let (settled, u1, e, h1) = bind_ok (check_chunk env chain action args context chunk) _ u h in
      let step : Quiet u u1 =
        subst (Quiet u) (ap (λ r. r.1) e) ((check_chunk-IsQuiet chunk).at u) in
      check_chunks_ok rest (outcomes ++ settled) u1 (Quiet-trans w u u1 quiet step) sizes.1 asked.1
        (All-append Founded outcomes settled known (check_chunk_ok chunk u quiet sizes.0 asked.0 e))
        h1
