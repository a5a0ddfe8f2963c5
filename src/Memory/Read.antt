-- ===== src/Memory/Read.antt =====
-- memory/service.py, recall: the candidates of the backend, each admitted by its provenance.
pub mod Stores
pub mod Sources
pub mod Vouched
pub mod Recalled
use headofcontext.Prelude.{
  ℕ, suc, String, Bool, true, false, ◌&&◌, not, Option, none, some, List, [], ◌∷◌, ◌++◌, ◌==◌, map,
  all, any, is_empty, filter, length, leb, ltb, if◌then◌else◌,
}
use headofcontext.Prelude.Int.{ℤ, pos, negsuc}
use headofcontext.Prelude.Sorted.{sorted_set}
use headofcontext.Core.Errors.{
  Exception, hoc, other, HocError, Result, ok, err, raised_with, memory_denied,
}
use headofcontext.Core.Refs.{validate_ref}
use headofcontext.Core.Capability.{Kind}
use headofcontext.Core.Chain.{PrincipalChain, depth}
use headofcontext.Core.Decision.{Decision, is_allow, outcome_text, remember, read_memory}
use headofcontext.Core.Events.{EventKind, memory_written, memory_read, ◌+++◌}
use headofcontext.Core.Decider.{decide_all}
use headofcontext.Memory.Record.{MemoryRecord, Memory, Candidate, Tuple}
use headofcontext.Memory.Parts.{
  ResourcePermits, MemoryEnv, refused_resources, put, get, get_by_backend_ref, delete_row,
  write_tuples, delete_tuples, store, delete_content,
}
use headofcontext.World.{World, Env, Exec, pure, lift, gets, ◌>>=◌, ◌>>◌, now, uuid4, record_event}
use headofcontext.Memory.{
  clamp, tuple_users, memory_ids, written_for_all, on_hoc_error, memory_event, deny_read,
  refuse_read,
}

-- The rows, if there is one for each reference, and at least one.
unfoldable pub known_rows : List (Option MemoryRecord) → Option (List MemoryRecord)
known_rows [] = some []
known_rows (none ∷ rest) = none
known_rows (some row ∷ rest) = elim (known_rows rest) [
  | none ↦ none
  | some rows ↦ some (row ∷ rows)
]

abbrev pub first_ref : List String → String
first_ref [] = "memory:unknown"
first_ref (ref ∷ rest) = ref

abbrev pub append_some : List Memory → Option Memory → List Memory
append_some kept none = kept
append_some kept (some memory) = kept ++ memory ∷ []

module _ {Args : Type 0} (env : Env Args) (outside : MemoryEnv Args) where
  -- The rows of the references, in order.
  unfoldable pub gather : List String → Exec (List (Option MemoryRecord))
  gather [] = pure []
  gather (ref ∷ rest) = do
    row ← get_by_backend_ref outside ref
    rows ← gather rest
    pure (row ∷ rows)

  -- The loop of `_sources`, before sorting: the ledger's sources and the tuple store's.
  unfoldable pub raw_sources : List MemoryRecord → Exec (List String)
  raw_sources [] = pure []
  raw_sources (row ∷ rest) = do
    answer ← gets (λ w. outside.stored_tuples w row.memory_id "derived_from")
    tuples ← lift answer
    later ← raw_sources rest
    pure (row.derived_from ++ tuple_users tuples ++ later)

  unfoldable pub sources_of : List MemoryRecord → Exec (List String)
  sources_of rows = do sources ← raw_sources rows; pure (sorted_set sources)

  -- The decision on rows that the token permits, and its event.
  unfoldable pub decide_read :
      PrincipalChain
      → Candidate
      → MemoryRecord
      → List MemoryRecord
      → List String
      → Exec (Option Memory)
  decide_read chain candidate primary rows sources = do
    decision ←
        decide_all env chain read_memory sources (some (memory_ids rows)) (some primary.memory_id)
          none none
    memory_event env memory_read chain primary.memory_id (outcome_text decision.outcome)
        (some primary.content_hash) (length sources) (some decision.reason)
    pure (
        if is_allow decision.outcome
        then some (record {
          memory_id = primary.memory_id;
          content = candidate.content;
          derived_from = sources;
          written_for = primary.written_for;
          written_by = primary.written_by;
          created_at = primary.created_at;
        })
        else none)

  -- A memory with no source is for the subject it was written for.
  unfoldable pub admit_permitted :
      PrincipalChain
      → Candidate
      → MemoryRecord
      → List MemoryRecord
      → List String
      → Exec (Option Memory)
  admit_permitted chain candidate primary rows sources =
      if is_empty sources && not (written_for_all chain.subject rows)
      then refuse_read env chain primary.memory_id "not_written_for"
      else decide_read chain candidate primary rows sources

  unfoldable pub admit_rows :
      PrincipalChain
      → Candidate
      → Option ResourcePermits
      → Option (List MemoryRecord)
      → Exec (Option Memory)
  admit_rows chain candidate permits none = refuse_read env chain "memory:unknown" "no_provenance"
  admit_rows chain candidate permits (some []) =
      refuse_read env chain "memory:unknown" "no_provenance"
  admit_rows chain candidate permits (some (primary ∷ others)) = do
    let rows = primary ∷ others
    sources ← sources_of rows
    refused ← lift (refused_resources permits Kind.read (memory_ids rows ++ sources))
    if not (is_empty refused)
        then refuse_read env chain primary.memory_id "token_check_failed"
        else admit_permitted chain candidate primary rows sources

  unfoldable pub admit_unguarded :
      PrincipalChain → Candidate → Option ResourcePermits → Exec (Option Memory)
  admit_unguarded chain candidate permits = do
    records ← gather candidate.backend_refs
    admit_rows chain candidate permits (known_rows records)

  -- A HocError while checking the provenance is a denial, journaled.
  unfoldable pub admit : PrincipalChain → Candidate → Option ResourcePermits → Exec (Option Memory)
  admit chain candidate permits w =
      on_hoc_error (λ e. refuse_read env chain (first_ref candidate.backend_refs) e.reason)
        (admit_unguarded chain candidate permits w)

  -- The loop of `recall`, which stops at the limit.
  unfoldable pub collect :
      PrincipalChain
      → Option ResourcePermits
      → ℕ
      → List Candidate
      → List Memory
      → Exec (List Memory)
  collect chain permits limit [] kept = pure kept
  collect chain permits limit (candidate ∷ rest) kept = do
    memory ← admit chain candidate permits
    let now_kept = append_some kept memory
    let later = collect chain permits limit rest now_kept
    if leb limit (length now_kept) then pure now_kept else later

  unfoldable pub recall_found :
      PrincipalChain → Option ResourcePermits → ℕ → Result (List Candidate) → Exec (List Memory)
  recall_found chain permits limit (ok candidates) = collect chain permits limit candidates []
  recall_found chain permits limit (err e) = do
    deny_read env chain "memory:*" "backend_unavailable"
    pure []

  unfoldable pub recall : PrincipalChain → String → ℤ → Option ResourcePermits → Exec (List Memory)
  recall chain query limit permits = do
    answer ← gets (λ w. outside.search w query outside.namespace (clamp limit))
    recall_found chain permits (clamp limit) answer
