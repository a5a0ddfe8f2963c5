-- ===== src/Memory.antt =====
-- memory/service.py: what an agent may remember, recall and forget. The namespace of the service
-- is the backend's.
pub mod Sources
pub mod Record
pub mod Parts
pub mod Read
pub mod Write
use headofcontext.Prelude.{
  ℕ, zero, suc, ◌/◌, ◌%◌, or_text, String, Bool, true, false, ◌&&◌, not, Option, none, some, List,
  [], ◌∷◌, ◌++◌, ◌==◌, map, all, any, is_empty, filter, length, leb, ltb, if◌then◌else◌,
}
use headofcontext.Prelude.Int.{ℤ, pos, negsuc}
use headofcontext.Prelude.Sorted.{sorted_set}
use headofcontext.Core.Errors.{
  Exception, hoc, other, HocError, Result, ok, err, raised_with, memory_denied,
}
use headofcontext.Core.Refs.{validate_ref}
use headofcontext.Core.Capability.{Kind}
use headofcontext.Core.Chain.{PrincipalChain, depth}
use headofcontext.Core.Decision.{Decision, is_allow, outcome_text, remember, read_memory}
use headofcontext.Core.Events.{EventKind, memory_written, memory_read, ◌+++◌}
use headofcontext.Core.Decider.{decide_all}
use headofcontext.Memory.Record.{MemoryRecord, Memory, Candidate, Tuple}
use headofcontext.Memory.Parts.{
  ResourcePermits, MemoryEnv, refused_resources, put, get, get_by_backend_ref, delete_row,
  write_tuples, delete_tuples, store, delete_content,
}
use headofcontext.World.{World, Env, Exec, pure, lift, gets, ◌>>=◌, ◌>>◌, now, uuid4, record_event}

abbrev pub max_limit : ℕ
max_limit = 50

-- `max(1, min(limit, MAX_LIMIT))`.
unfoldable pub clamp : ℤ → ℕ
clamp (negsuc n) = 1
clamp (pos n) = if ltb n 1 then 1 else if leb n max_limit then n else max_limit

-- `tuple(dict.fromkeys(items))`: the first of equal items stays.
unfoldable pub dedupe : List String → List String
dedupe [] = []
dedupe (item ∷ rest) = item ∷ filter (λ r. not (r == item)) (dedupe rest)

unfoldable pub validate_documents : List String → Result (Unit {0})
unfolding validate_ref
validate_documents [] = ok tt
validate_documents (source ∷ rest) =
    let later = validate_documents rest in
    elim (validate_ref source "document") [ ok r ↦ later | err e ↦ err e ]

abbrev pub tuple_users : List Tuple → List String
tuple_users tuples = map (λ (t : Tuple). t.user) tuples

abbrev pub memory_ids : List MemoryRecord → List String
memory_ids rows = map (λ (r : MemoryRecord). r.memory_id) rows

-- `sources or (memory_id,)`.
abbrev pub or_memory : List String → String → List String
or_memory [] memory_id = memory_id ∷ []
or_memory (source ∷ rest) memory_id = source ∷ rest

-- `f"memory:{kind.value.split('_')[1]}"` of the two kinds that the service journals.
abbrev pub event_action : EventKind → String
event_action memory_written = "memory:written"
event_action _ = "memory:read"

-- `{r.written_for for r in rows} != {chain.subject}`, of a list with a first row.
abbrev pub written_for_all : String → List MemoryRecord → Bool
written_for_all subject rows = all (λ (r : MemoryRecord). r.written_for == subject) rows

-- `str(n)`: the fuel is a bound of the number of digits.
abbrev pub text_at : ℕ → List String → String
text_at n [] = ""
text_at zero (s ∷ rest) = s
text_at (suc n) (s ∷ rest) = text_at n rest

abbrev pub digit : ℕ → String
digit n = text_at n ("0" ∷ "1" ∷ "2" ∷ "3" ∷ "4" ∷ "5" ∷ "6" ∷ "7" ∷ "8" ∷ "9" ∷ [])

unfoldable pub digits : ℕ → ℕ → String
digits zero n = ""
digits (suc fuel) n =
    let front = digits fuel (n / 10) in if ltb n 10 then digit n else front +++ digit (n % 10)

abbrev pub decimal : ℕ → String
decimal n = digits (suc n) n

module _ {A : Type 0} where
  -- `except HocError as exc`.
  abbrev pub on_hoc_error : (HocError → Exec A) → Result A × World → Result A × World
  on_hoc_error handler (ok a, w) = (ok a, w)
  on_hoc_error handler (err other, w) = (err other, w)
  on_hoc_error handler (err (hoc e), w) = handler e w

  -- `except Exception`, whose handler raises or returns.
  abbrev pub on_exception : (Exception → Exec A) → Result A × World → Result A × World
  on_exception handler (ok a, w) = (ok a, w)
  on_exception handler (err e, w) = handler e w

module _ {Args : Type 0} (env : Env Args) where
  -- `_memory_event`, recorded.
  unfoldable pub memory_event :
      EventKind
      → PrincipalChain
      → String
      → String
      → Option String
      → ℕ
      → Option String
      → Exec (Unit {0})
  memory_event kind chain memory_id outcome content_hash source_count reason = do
    timestamp ← now env
    event_id ← uuid4 env
    record_event env (record {
      kind = kind;
      timestamp = timestamp;
      subject = chain.subject;
      actor = chain.actor;
      delegation_depth = depth chain;
      action = event_action kind;
      resource = memory_id;
      outcome = outcome;
      reason = or_text reason ("sources=" +++ decimal source_count);
      engine_latency_ms = 0;
      token_fingerprint = none;
      args_hash = content_hash;
      decision_id = none;
      event_id = event_id;
    })

  unfoldable pub deny_read : PrincipalChain → String → String → Exec (Unit {0})
  deny_read chain memory_id reason =
      memory_event memory_read chain memory_id "DENY" none 0 (some reason)

  -- A denial, and `None`.
  unfoldable pub refuse_read : PrincipalChain → String → String → Exec (Option Memory)
  refuse_read chain memory_id reason = do deny_read chain memory_id reason; pure none
