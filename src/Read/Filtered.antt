-- ===== src/Read/Filtered.antt =====
-- What the filter returns: every item is kept or dropped, and a kept one may be read.
use headofcontext.Prelude.{
  ◌≡◌, sym, ap, subst, inl, inr, String, Option-cases, Bool, Option, List, [], ◌∷◌, Dict, map,
  length, is_empty, is_empty_nil, All, Bool-cases,
}
use headofcontext.Prelude.Sorted.{sorted_set}
use headofcontext.Core.Errors.{Result, ok}
use headofcontext.Core.Capability.{Kind}
use headofcontext.Core.Chain.{PrincipalChain}
use headofcontext.Core.Decision.{Outcome, Action}
use headofcontext.Memory.Parts.{ResourcePermits}
use headofcontext.Read.{
  Strategy, FilterEnv, FilterResult, reference, present, chosen, token_refusals, candidates_of,
  is_allowed, kept_items, dropped_items, filter_items,
}
use headofcontext.World.{World, Env, lift}
use headofcontext.World.Returns.{bind_ok, lift_ok, pure_ok}
use headofcontext.Read.References.{
  Refers, IsReference, reference-Refers, reference-none, present-IsReference,
}
use headofcontext.Read.Kept.{ReadableItem, Sound, filtered-Sound, kept_items-Sound}

-- How the items part: each is kept, or dropped under its reference, or under `invalid` if it has
-- none; both in the order of the items.
pub data Parted {Item : Type 0} (extract : Item → Result (Option String))
    : List Item → List Item → List String → Type 0 where
  no_item : Parted extract [] [] []
  keep :
      {item : Item} {items kept : List Item} {dropped : List String}
      → Parted extract items kept dropped
      → Parted extract (item ∷ items) (item ∷ kept) dropped
  drop_named :
      {item : Item} {items kept : List Item} {dropped : List String} (r : String)
      → Refers extract item r
      → Parted extract items kept dropped
      → Parted extract (item ∷ items) kept (r ∷ dropped)
  drop_invalid :
      {item : Item} {items kept : List Item} {dropped : List String}
      → ((r : String) → ¬ Refers extract item r)
      → Parted extract items kept dropped
      → Parted extract (item ∷ items) kept ("invalid" ∷ dropped)

kept-dropped :
    {Item : Type 0} (extract : Item → Result (Option String)) (outcomes : Dict Outcome)
    (items : List Item)
    → Parted extract items
        (kept_items extract outcomes items)
        (dropped_items extract outcomes items)
unfolding kept_items dropped_items
kept-dropped extract outcomes [] = no_item
kept-dropped extract outcomes (item ∷ rest) =
    let later = kept-dropped extract outcomes rest in
    elim (Bool-cases (is_allowed outcomes (reference extract item))) [
      | inl kept ↦ rw kept (keep later)
      | inr dropped ↦ elim (Option-cases (reference extract item)) [
        | inl invalid ↦
            rw (dropped, invalid) (drop_invalid (λ r. reference-none extract item r invalid) later)
        | inr (r, valid) ↦
            rw (dropped, valid) (drop_named r (reference-Refers extract item r valid) later)
      ]
    ]

-- The action of the filter.
abbrev pub reading : String → Action
reading relation = record { kind = Kind.read; relation = relation }

module _ {Args : Type 0} (env : Env Args) (outside : FilterEnv) (chain : PrincipalChain)
    (permits : Option ResourcePermits) {Item : Type 0}
    (extract : Item → Result (Option String)) where
  -- What the filter's result says of the items, in the state of the call.
  abbrev pub FilterSound : String → List Item → World → FilterResult Item → Type 0
  FilterSound relation items w result =
      (refs : List String) × All (IsReference extract items) refs
      × All (ReadableItem env outside chain (reading relation) permits w refs extract) result.kept
      × Parted extract items result.kept result.dropped

  -- When the filter returns, the items part, in order, into those that are kept and those that are
  -- dropped, each under its reference, or under `invalid` if it has none. The reference of a kept
  -- item is a well-formed document; the token's checks, if there are any, answered for it among
  -- references of the items and let it pass; the actor's scope covers it; the engine, asked about
  -- at most fifty references of the items when the stores and the journal were as the call found
  -- them, answered in its place that the subject is related to it; and the policy, if there is
  -- one, allows it. So with either strategy.
  pub filter_items-ReadableItem :
      (items : List Item) (relation : String) (strategy : Strategy) (per_item_audit : Bool)
      (w : World) {result : FilterResult Item} {v : World}
      → filter_items env outside chain items extract relation strategy per_item_audit permits w
        ≡ (ok result, v)
      → FilterSound relation items w result
  unfolding filter_items
  filter_items-ReadableItem items relation strategy per_item_audit w {result} {v} h =
      elim (Bool-cases (is_empty items)) [
        | inl nothing ↦
            let e = (pure_ok _ w (rw nothing at h)).0 in
            (
              present (map (reference extract) items),
              present-IsReference extract items,
              subst
                  (All (
                    ReadableItem env outside chain (reading relation) permits w
                      (present (map (reference extract) items)) extract))
                  (ap (λ (r : FilterResult Item). r.kept) (sym e)) tt,
              rw e (subst (λ l. Parted extract l [] []) (sym (is_empty_nil items nothing)) no_item),
            )
        | inr some_left ↦
            let refs = present (map (reference extract) items) in
            let (refused, u, e, h1) =
              bind_ok (lift (token_refusals permits (sorted_set refs))) _ w (rw some_left at h) in
            let (outcomes, u2, e2, h2) = bind_ok _ _ u h1 in
            let (t, u3, e3, h3) = bind_ok _ _ u2 h2 in
            settle outcomes
              (filtered-Sound env outside chain (reading relation) permits w refs per_item_audit
                (chosen strategy (length (candidates_of refs refused))) refused u (lift_ok _ w e).0
                (lift_ok _ w e).1 e2)
              (ap (λ (r : FilterResult Item). r.kept) (pure_ok _ u3 h3).0)
              (ap (λ (r : FilterResult Item). r.dropped) (pure_ok _ u3 h3).0)
      ]
    where
      settle :
          (outcomes : Dict Outcome)
          → All
              (Sound env outside chain
                (reading relation)
                permits
                w
                (present (map (reference extract) items)))
              outcomes
          → result.kept ≡ kept_items extract outcomes items
          → result.dropped ≡ dropped_items extract outcomes items
          → FilterSound relation items w result
      settle outcomes sound kept dropped = (
        present (map (reference extract) items),
        present-IsReference extract items,
        subst
            (All (
              ReadableItem env outside chain (reading relation) permits w
                (present (map (reference extract) items)) extract))
            (sym kept)
            (kept_items-Sound env outside chain (reading relation) permits w
              (present (map (reference extract) items)) extract outcomes items sound),
        rw (kept, dropped) (kept-dropped extract outcomes items),
      )
