-- ===== src/Read.antt =====
-- read/filter.py: keep the items whose document the subject may view. An item is opaque; `extract`
-- is `id_of`, which may raise, with nothing for a value that is no text. `document_refs` is left out.
pub mod References
pub mod Permitted
pub mod Kept
pub mod Filtered
use Prim.Native.String
use headofcontext.Prelude.{
  ℕ, zero, suc, String, Bool, true, false, not, Option, none, some, List, [], ◌∷◌, ◌++◌, ◌==◌, Dict,
  lookup, insert, filter, any, map, length, ltb, is_empty, or_default, codes, if◌then◌else◌,
}
use headofcontext.Prelude.Sorted.{sorted_set, codes_lt}
use headofcontext.Core.Errors.{Result, ok, err}
use headofcontext.Core.Refs.{validate_ref}
use headofcontext.Core.Capability.{Kind}
use headofcontext.Core.Chain.{PrincipalChain, depth}
use headofcontext.Core.Decision.{Outcome, deny, is_allow, Action, Decision}
use headofcontext.Core.Events.{read_filtered, kind_text, ◌+++◌}
use headofcontext.Core.Decider.Each.{decide_each}
use headofcontext.Memory.{decimal}
use headofcontext.Memory.Parts.{ResourcePermits}
use headofcontext.World.{World, Env, Exec, pure, lift, gets, ◌>>=◌, ◌>>◌, now, uuid4, record_event}

abbrev pub list_objects_threshold : ℕ
list_objects_threshold = 100

pub data Strategy : Type 0 where
  automatic batch list_objects : Strategy

-- What the filter takes from outside, beside the decider's parts.
pub record FilterEnv : Type 0 where
  pub visible_objects : World → String → String → String → Result (List String)
  pub sha256 : String → String

abbrev pub reference_of : Result (Option String) → Option String
reference_of (err e) = none
reference_of (ok none) = none
reference_of (ok (some raw)) = elim (validate_ref raw "document") [ ok r ↦ some r | err e ↦ none ]

unfoldable pub reference : {Item : Type 0} → (Item → Result (Option String)) → Item → Option String
unfolding validate_ref
reference extract item = reference_of (extract item)

-- `[r for r in refs if r is not None]`.
abbrev pub present : List (Option String) → List String
present [] = []
present (none ∷ rest) = present rest
present (some r ∷ rest) = r ∷ present rest

abbrev pub chosen : Strategy → ℕ → Strategy
chosen automatic count = if ltb list_objects_threshold count then list_objects else batch
chosen batch count = batch
chosen list_objects count = list_objects

abbrev pub is_list_objects : Strategy → Bool
is_list_objects list_objects = true
is_list_objects _ = false

abbrev pub strategy_text : Strategy → String
strategy_text automatic = "auto"
strategy_text batch = "batch"
strategy_text list_objects = "list_objects"

abbrev pub is_member : String → List String → Bool
is_member r refs = any (λ s. s == r) refs

-- `{r for r in wanted if not answers.get(r, False)}`.
abbrev pub refused_by : Dict Bool → List String → List String
refused_by answers wanted = filter (λ r. not (or_default (lookup r answers) false)) wanted

-- The token's refusals among the references that are wanted.
unfoldable pub token_refusals : Option ResourcePermits → List String → Result (List String)
token_refusals none wanted = ok []
token_refusals (some permits) wanted =
    if is_empty wanted then ok [] else elim (permits Kind.read wanted) [
      | ok answers ↦ ok (refused_by answers wanted)
      | err e ↦ err e
    ]

abbrev pub is_wanted : List String → String → Bool
is_wanted refused r = not (is_member r refused)

unfoldable pub candidates_of : List String → List String → List String
candidates_of refs refused = sorted_set (filter (is_wanted refused) refs)

-- `dict.fromkeys(refs, Outcome.DENY)`.
unfoldable pub all_denied : List String → Dict Outcome
all_denied [] = []
all_denied (r ∷ rest) = insert r deny (all_denied rest)

-- `outcomes[d.resource] = d.outcome` for each decision, in order.
unfoldable pub with_decisions : List Decision → Dict Outcome → Dict Outcome
with_decisions [] outcomes = outcomes
with_decisions (d ∷ rest) outcomes = with_decisions rest (insert d.resource d.outcome outcomes)

-- `outcomes.update(other)`.
unfoldable pub with_outcomes : Dict Outcome → Dict Outcome → Dict Outcome
with_outcomes [] outcomes = outcomes
with_outcomes ((r, o) ∷ rest) outcomes = with_outcomes rest (insert r o outcomes)

-- `ref is not None and allowed.get(ref) is Outcome.ALLOW`.
unfoldable pub is_allowed : Dict Outcome → Option String → Bool
is_allowed allowed none = false
is_allowed allowed (some r) = elim (lookup r allowed) [ none ↦ false | some o ↦ is_allow o ]

abbrev pub dropped_name : Option String → String
dropped_name none = "invalid"
dropped_name (some r) = r

-- `sorted(refs)`, `"\n".join` and `digest[:16]`.
abbrev pub insert_sorted : String → List String → List String
insert_sorted s [] = s ∷ []
insert_sorted s (t ∷ rest) =
    let later = insert_sorted s rest in
    if codes_lt (codes t) (codes s) then t ∷ later else s ∷ t ∷ rest

abbrev pub sorted : List String → List String
sorted [] = []
sorted (s ∷ rest) = insert_sorted s (sorted rest)

abbrev pub join_lines : List String → String
join_lines [] = ""
join_lines (s ∷ []) = s
join_lines (s ∷ t ∷ rest) = s +++ "\n" +++ join_lines (t ∷ rest)

abbrev pub first_letters : ℕ → String → String
first_letters zero s = ""
first_letters (suc n) String.[] = ""
first_letters (suc n) (String.◌∷◌ c s) = String.◌∷◌ c (first_letters n s)

abbrev pub digest : FilterEnv → List String → String
digest outside refs = outside.sha256 (join_lines (sorted refs))

pub record FilterResult (Item : Type 0) : Type 0 where
  pub kept : List Item
  pub dropped : List String
  pub strategy : String
  pub decisions_by_ref : Dict Outcome

module _ {Item : Type 0} (extract : Item → Result (Option String)) where
  -- The loop over the items and their references.
  unfoldable pub kept_items : Dict Outcome → List Item → List Item
  kept_items allowed [] = []
  kept_items allowed (item ∷ rest) =
      let later = kept_items allowed rest in
      if is_allowed allowed (reference extract item) then item ∷ later else later

  unfoldable pub dropped_items : Dict Outcome → List Item → List String
  dropped_items allowed [] = []
  dropped_items allowed (item ∷ rest) =
      let later = dropped_items allowed rest in
      if is_allowed allowed (reference extract item)
      then later
      else dropped_name (reference extract item) ∷ later

module _ {Args : Type 0} (env : Env Args) (outside : FilterEnv) where
  -- `_via_list_objects`: a listed candidate is decided like any other, the rest is denied.
  unfoldable pub via_list_objects : PrincipalChain → Action → List String → Exec (Dict Outcome)
  via_list_objects chain action candidates = do
    answer ← gets (λ w. outside.visible_objects w chain.subject action.relation "document")
    elim answer [
      | err e ↦ pure (all_denied candidates)
      | ok visible ↦
          (decide_each env chain action (filter (λ c. is_member c visible) candidates) false none
              none
            >>= λ decisions. pure (with_decisions decisions (all_denied candidates)))
    ]

  unfoldable pub outcomes_of :
      PrincipalChain → Action → Bool → Strategy → List String → Dict Outcome → Exec (Dict Outcome)
  outcomes_of chain action per_item_audit how candidates allowed =
      if is_list_objects how
      then (via_list_objects chain action candidates >>= λ outcomes.
          pure (with_outcomes outcomes allowed))
      else (decide_each env chain action candidates per_item_audit none none >>= λ decisions.
          pure (with_decisions decisions allowed))

  -- `_summary_event`, recorded.
  unfoldable pub summary_event :
      PrincipalChain → Action → List String → List String → ℕ → Exec (Unit {0})
  summary_event chain action kept_refs dropped token_refused = do
    timestamp ← now env
    event_id ← uuid4 env
    record_event env (record {
      kind = read_filtered;
      timestamp = timestamp;
      subject = chain.subject;
      actor = chain.actor;
      delegation_depth = depth chain;
      action = kind_text action.kind +++ ":" +++ action.relation;
      resource = "document:*";
      outcome = if is_empty kept_refs then "DENY" else "ALLOW";
      reason =
          "kept="
          +++ decimal (length kept_refs)
          +++ " dropped="
          +++ decimal (length dropped)
          +++ " token_refused="
          +++ decimal token_refused
          +++ " kept_sha256="
          +++ first_letters 16 (digest outside kept_refs);
      engine_latency_ms = 0;
      token_fingerprint = none;
      args_hash = some (digest outside dropped);
      decision_id = none;
      event_id = event_id;
    })

  unfoldable pub filter_items :
      {Item : Type 0}
      → PrincipalChain
      → List Item
      → (Item → Result (Option String))
      → String
      → Strategy
      → Bool
      → Option ResourcePermits
      → Exec (FilterResult Item)
  filter_items chain items extract relation strategy per_item_audit permits =
      if is_empty items
      then pure (record { kept = []; dropped = []; strategy = "none"; decisions_by_ref = [] })
      else do
        let action : Action = record { kind = Kind.read; relation = relation }
        let refs = present (map (reference extract) items)
        refused ← lift (token_refusals permits (sorted_set refs))
        let candidates = candidates_of refs refused
        let how = chosen strategy (length candidates)
        allowed ←
            if is_empty candidates
            then pure (all_denied refused)
            else outcomes_of chain action per_item_audit how candidates (all_denied refused)
        let dropped = dropped_items extract allowed items
        summary_event chain action (filter (λ r. is_allowed allowed (some r)) refs) dropped
            (length refused)
        pure (record {
          kept = kept_items extract allowed items;
          dropped = dropped;
          strategy = strategy_text how;
          decisions_by_ref = allowed;
        })
