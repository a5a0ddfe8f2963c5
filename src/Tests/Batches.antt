-- ===== src/Tests/Batches.antt =====
-- A run of `decide_each`, its slices, and the theorem on it.
use headofcontext.Prelude.{◌≡◌, refl, true, String, none, List, [], ◌∷◌, map, All}
use headofcontext.Prelude.Int.{pos}
use headofcontext.Core.Errors.{Result, ok}
use headofcontext.Core.Decision.{Decision, allow, deny, read, no_context}
use headofcontext.Core.Decider.Each.{
  partition_scope, slices, find, settle_chunk, check_chunk, journal_if, check_chunks,
  build_decisions, decide_each,
}
use headofcontext.Core.Decider.Each.Granted.{Granted, decide_each-Granted}
use headofcontext.World.{World}
use headofcontext.Tests.Fixtures.{env, start, reader, path_open, decided}

-- A room of two in the first slice.
slices_of_three : slices {A = String} 2 ("a" ∷ "b" ∷ "c" ∷ []) ≡ ("a" ∷ "b" ∷ []) ∷ ("c" ∷ []) ∷ []
unfolding slices
slices_of_three = refl

abbrev asked : List String
asked = "doc:c" ∷ "doc:a" ∷ "tool:mail" ∷ []

abbrev outcome : Result (List Decision) × World
outcome = decide_each env reader read asked true none none start

abbrev decisions : List Decision
decisions =
    decided deny "not_related" reader "doc:c" read (pos 1) 1 "iii" []
    ∷ decided allow "allowed" reader "doc:a" read (pos 1) 1 "iiiii" []
    ∷ decided deny "scope_excluded" reader "tool:mail" read (pos 1) 0 "iiiiiii" []
    ∷ []

decide_each_three : outcome ≡ (ok decisions, outcome.1)
unfolding path_open decide_each partition_scope slices find settle_chunk check_chunk journal_if
    check_chunks build_decisions
decide_each_three = refl

decide_each-Granted_example :
    (map (λ (d : Decision). d.resource) decisions ≡ asked)
    × All (Granted env reader read "{}" no_context start asked) decisions
decide_each-Granted_example =
    decide_each-Granted env reader read asked true none none start decide_each_three
