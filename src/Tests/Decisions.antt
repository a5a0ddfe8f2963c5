-- ===== src/Tests/Decisions.antt =====
-- The decision path at concrete inputs.
use headofcontext.Prelude.{◌≡◌, refl, ◌↔◌, String, true, not, none, [], ◌∷◌, ◌++◌}
use headofcontext.Prelude.Int.{pos}
use headofcontext.Core.Errors.{ok}
use headofcontext.Core.Capability.{Kind}
use headofcontext.Core.Scope
use headofcontext.Core.Events.{from_decision}
use headofcontext.Core.Decision.{Decision, read, allow, deny, no_context}
use headofcontext.Core.Decider.{decide, decide_all, hash_args}
use headofcontext.Core.Decider.All.{decide_all-allow_iff, AllowsAll}
use headofcontext.Core.Decider.Reasons.{Explains, decide-Explains}
use headofcontext.Core.Decider.Total.{decide-Logs, decide_all-Logs}
use headofcontext.World.Logged.{Logs}
use headofcontext.Core.Decider.Laws.{decide-allow_iff, capability, PolicyPasses}
use headofcontext.Tests.Fixtures.{env, broken_env, start, reader, decided, path_open}

abbrev reading : Decision
reading = decided allow "allowed" reader "doc:a" read (pos 1) 1 "iii" []

decide_reads : (decide env reader read "doc:a" none none start).0 ≡ ok reading
unfolding path_open
decide_reads = refl

decide-allow_iff_example :
    ((reading.outcome ≡ allow) ↔ (
      (Scope.covers reader.scope (capability Kind.read "doc:a") ≡ true)
      × (env.check start "user:alice" "viewer" "doc:a" ≡ ok true)
      × PolicyPasses env reader read "doc:a" "{}" no_context))
    × (reading.chain ≡ reader)
    × (reading.resource ≡ "doc:a")
    × ((event_id : String) × ((decide env reader read "doc:a" none none start).1.journal
          ≡ [] ++ from_decision reading (hash_args env none) event_id ∷ []))
decide-allow_iff_example = decide-allow_iff env reader read start "doc:a" none none decide_reads

abbrev refused : Decision
refused = decided deny "engine_error" reader "doc:a" read (pos 1) 1 "iii" []

decide_refuses : (decide broken_env reader read "doc:a" none none start).0 ≡ ok refused
unfolding path_open
decide_refuses = refl

decide-Explains_example :
    Explains broken_env reader read start "doc:a" "{}" no_context deny "engine_error"
decide-Explains_example =
    decide-Explains broken_env reader read start "doc:a" none none decide_refuses

decide-Logs_example : Logs (decide env reader read "doc:a" none none)
decide-Logs_example = decide-Logs env reader read "doc:a" none none

decide_all-Logs_example :
    Logs (decide_all env reader read ("doc:a" ∷ "doc:b" ∷ []) none none none none)
decide_all-Logs_example =
    decide_all-Logs env reader read ("doc:a" ∷ "doc:b" ∷ []) none none none none

abbrev reading_both : Decision
reading_both = decided allow "allowed" reader "doc:a" read (pos 1) 1 "iii" ("doc:a" ∷ "doc:b" ∷ [])

decide_all_reads :
    (decide_all env reader read ("doc:a" ∷ "doc:b" ∷ []) none none none none start).0
    ≡ ok reading_both
unfolding path_open
decide_all_reads = refl

decide_all-allow_iff_example :
    (reading_both.outcome ≡ allow)
    ↔ AllowsAll env reader read start
        ("doc:a" ∷ "doc:b" ∷ [])
        ("doc:a" ∷ "doc:b" ∷ [])
        (not true)
        "{}"
        no_context
decide_all-allow_iff_example =
    decide_all-allow_iff env reader read start ("doc:a" ∷ "doc:b" ∷ []) none none none none
      decide_all_reads
