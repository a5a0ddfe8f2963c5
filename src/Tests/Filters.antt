-- ===== src/Tests/Filters.antt =====
-- A run of the filter, and the theorem on it.
use headofcontext.Prelude.{
  ◌≡◌, refl, String, Bool, true, false, ◌&&◌, ◌||◌, Option, none, some, List, [], ◌∷◌, ◌==◌, map,
  lookup, insert,
}
use headofcontext.Prelude.Sorted.{sorted_set, insert_text}
use headofcontext.Core.Errors.{Result, ok}
use headofcontext.Core.Capability.{Kind}
use headofcontext.Core.Refs.{validate_ref}
use headofcontext.Core.Chain.{PrincipalChain}
use headofcontext.Core.Decision.{allow, deny}
use headofcontext.Core.Decider.Each.{
  partition_scope, slices, find, settle_chunk, check_chunk, journal_if, check_chunks,
  build_decisions, decide_each,
}
use headofcontext.Memory.{digits}
use headofcontext.Memory.Parts.{ResourcePermits}
use headofcontext.Read.{
  automatic, FilterEnv, FilterResult, reference, token_refusals, candidates_of, all_denied,
  with_decisions, with_outcomes, is_allowed, kept_items, dropped_items, via_list_objects,
  outcomes_of, summary_event, filter_items,
}
use headofcontext.Read.Filtered.{FilterSound, filter_items-ReadableItem}
use headofcontext.World.{World, Env}
use headofcontext.Tests.Fixtures.{env, start, chain_of, path_open}

abbrev docs_batch : World → String → List (String × String) → Result (List Bool)
docs_batch w subject items = ok (
    map
      (λ (i : String × String).
        subject == "user:alice" && (i.1 == "document:a" || i.1 == "document:c"))
      items)

abbrev docs_env : Env String
docs_env = record env { batch_check = docs_batch }

abbrev docs_reader : PrincipalChain
docs_reader =
    chain_of (record { capabilities = record { kind = Kind.read; resource = "document:*" } ∷ [] })

abbrev search_env : FilterEnv
search_env = record { visible_objects = λ w s r t. ok []; sha256 = λ t. "sha256" }

-- A token that lets one document pass.
abbrev token : ResourcePermits
token kind resources = ok (("document:a", true) ∷ ("document:b", true) ∷ [])

abbrev hits : List (Option String)
hits = some "document:a" ∷ some "document:b" ∷ none ∷ some "document:c" ∷ some "document:a" ∷ []

abbrev as_is : Option String → Result (Option String)
as_is item = ok item

abbrev run : Result (FilterResult (Option String)) × World
run =
    filter_items docs_env search_env docs_reader hits as_is "viewer" automatic false (some token)
      start

abbrev result : FilterResult (Option String)
result = record {
  kept = some "document:a" ∷ some "document:a" ∷ [];
  dropped = "document:b" ∷ "invalid" ∷ "document:c" ∷ [];
  strategy = "batch";
  decisions_by_ref = ("document:c", deny) ∷ ("document:a", allow) ∷ ("document:b", deny) ∷ [];
}

filter_hits : run ≡ (ok result, run.1)
unfolding path_open decide_each partition_scope slices find settle_chunk check_chunk journal_if
    check_chunks build_decisions validate_ref reference token_refusals candidates_of all_denied
    with_decisions with_outcomes is_allowed kept_items dropped_items via_list_objects outcomes_of
    summary_event filter_items sorted_set insert_text lookup insert digits
filter_hits = refl

filter_items-ReadableItem_example :
    FilterSound docs_env search_env docs_reader (some token) as_is "viewer" hits start result
filter_items-ReadableItem_example =
    filter_items-ReadableItem docs_env search_env docs_reader (some token) as_is hits "viewer"
      automatic false start filter_hits
