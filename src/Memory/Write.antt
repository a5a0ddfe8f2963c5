-- ===== src/Memory/Write.antt =====
-- memory/service.py, remember and forget, with the rollback of a write that failed half-way.
pub mod Forgotten
pub mod Written
pub mod Undone
use headofcontext.Prelude.{
  ℕ, suc, String, Bool, true, false, ◌&&◌, not, Option, none, some, List, [], ◌∷◌, ◌++◌, ◌==◌, map,
  all, any, is_empty, filter, length, leb, ltb, if◌then◌else◌,
}
use headofcontext.Prelude.Int.{ℤ, pos, negsuc}
use headofcontext.Prelude.Sorted.{sorted_set}
use headofcontext.Core.Errors.{
  Exception, hoc, other, HocError, Result, ok, err, raised_with, memory_denied,
}
use headofcontext.Core.Refs.{validate_ref}
use headofcontext.Core.Capability.{Kind}
use headofcontext.Core.Chain.{PrincipalChain, depth}
use headofcontext.Core.Decision.{Decision, is_allow, outcome_text, remember, read_memory}
use headofcontext.Core.Events.{EventKind, memory_written, memory_read, ◌+++◌}
use headofcontext.Core.Decider.{decide_all}
use headofcontext.Memory.Record.{MemoryRecord, Memory, Candidate, Tuple}
use headofcontext.Memory.Parts.{
  ResourcePermits, MemoryEnv, refused_resources, put, get, get_by_backend_ref, delete_row,
  write_tuples, delete_tuples, store, delete_content,
}
use headofcontext.World.{World, Env, Exec, pure, lift, gets, ◌>>=◌, ◌>>◌, now, uuid4, record_event}
use headofcontext.Memory.{
  dedupe, validate_documents, or_memory, on_hoc_error, on_exception, memory_event, deny_read,
}
use headofcontext.Core.Errors.{raised}

abbrev pub derivation : String → List String → List Tuple
derivation memory_id sources =
    map (λ s. record { user = s; relation = "derived_from"; object = memory_id }) sources

-- The tuples that `remember` writes.
abbrev pub provenance : PrincipalChain → String → List String → List Tuple
provenance chain memory_id sources =
    derivation memory_id sources
    ++ record { user = chain.actor; relation = "writer"; object = memory_id } ∷ []

-- `raise MemoryDenied(..., reason=...)`.
abbrev pub refused_with : {A : Type 0} → String → Result A
refused_with reason = raised_with memory_denied reason

module _ {Args : Type 0} (env : Env Args) (outside : MemoryEnv Args) where
  -- A step of the rollback: a HocError is logged, any other exception goes on.
  unfoldable pub try_hoc : Exec (Unit {0}) → Exec (Unit {0})
  try_hoc m w = on_hoc_error (λ e. pure tt) (m w)

  unfoldable pub erase_content : Option String → Exec (Unit {0})
  erase_content none w = (ok tt, w)
  erase_content (some ref) w = on_exception (λ e. pure tt) (delete_content outside ref w)

  -- `_rollback`.
  unfoldable pub rollback : String → List Tuple → Option String → Exec (Unit {0})
  rollback memory_id tuples backend_ref = do
    erase_content backend_ref
    try_hoc (delete_tuples outside tuples)
    try_hoc (delete_row outside memory_id)

  -- The row that `remember` puts.
  abbrev pub row_of : PrincipalChain → String → String → List String → ℤ → String → MemoryRecord
  row_of chain memory_id content sources created_at backend_ref = record {
    memory_id = memory_id;
    written_for = chain.subject;
    written_by = chain.actor;
    derived_from = sources;
    content_hash = outside.content_hash content;
    backend = outside.adapter_name;
    backend_ref = backend_ref;
    created_at = created_at;
  }

  -- The rollback, and the exception again.
  unfoldable pub undo : String → List Tuple → Option String → Exception → Exec (Unit {0})
  undo memory_id tuples backend_ref e = do rollback memory_id tuples backend_ref; lift (err e)

  -- The row of content that is stored.
  unfoldable pub put_row :
      PrincipalChain → String → String → List String → ℤ → String → Exec (Unit {0})
  put_row chain memory_id content sources created_at backend_ref w =
      on_exception (undo memory_id (provenance chain memory_id sources) (some backend_ref))
        (put outside (row_of chain memory_id content sources created_at backend_ref) w)

  -- What the backend's answer leads to.
  unfoldable pub after_store :
      PrincipalChain → String → String → List String → ℤ → Result String → Exec (Unit {0})
  after_store chain memory_id content sources created_at (err e) =
      undo memory_id (provenance chain memory_id sources) none e
  after_store chain memory_id content sources created_at (ok ref) =
      put_row chain memory_id content sources created_at ref

  -- The second `try` of `remember`: the backend, then the ledger.
  unfoldable pub persist : PrincipalChain → String → String → List String → ℤ → Exec (Unit {0})
  persist chain memory_id content sources created_at w =
      let (answer, w') = store outside memory_id content w in
      after_store chain memory_id content sources created_at answer w'

  -- The first `try`: a HocError of the tuple store becomes a refusal.
  unfoldable pub write_provenance : List Tuple → Exec (Unit {0})
  write_provenance tuples w =
      on_hoc_error (λ e. lift (refused_with e.reason)) (write_tuples outside tuples w)

  -- What follows the decision of `remember`.
  unfoldable pub remember_decided :
      PrincipalChain → String → String → List String → Decision → Exec Memory
  remember_decided chain memory_id content sources decision =
      if not (is_allow decision.outcome) then lift (refused_with decision.reason) else do
        created_at ← now env
        write_provenance (provenance chain memory_id sources)
        persist chain memory_id content sources created_at
        memory_event env memory_written chain memory_id "written"
            (some (outside.content_hash content)) (length sources) none
        pure (record {
          memory_id = memory_id;
          content = content;
          derived_from = sources;
          written_for = chain.subject;
          written_by = chain.actor;
          created_at = created_at;
        })

  unfoldable pub remember_permitted : PrincipalChain → String → String → List String → Exec Memory
  remember_permitted chain memory_id content sources = do
    decision ←
        decide_all env chain remember sources (some (or_memory sources memory_id)) (some memory_id)
          (some (outside.content_args content)) none
    remember_decided chain memory_id content sources decision

  unfoldable pub remember_content :
      PrincipalChain → String → List String → Option ResourcePermits → Exec Memory
  remember_content chain content derived_from permits = do
    let sources = dedupe derived_from
    lift (validate_documents sources)
    fresh_id ← uuid4 env
    let memory_id = "memory:" +++ fresh_id
    refused ← lift (refused_resources permits Kind.remember (or_memory sources memory_id))
    if not (is_empty refused)
        then (memory_event env memory_written chain memory_id "DENY"
              (some (outside.content_hash content)) (length sources) (some "token_check_failed")
            >> lift (refused_with "token_check_failed"))
        else remember_permitted chain memory_id content sources

  -- What follows the decision of `forget`.
  unfoldable pub forget_decided : MemoryRecord → String → Decision → Exec (Unit {0})
  forget_decided row memory_id decision =
      if not (is_allow decision.outcome) then lift (refused_with decision.reason) else do
        delete_content outside row.backend_ref
        delete_row outside memory_id
        derived ← gets (λ w. outside.stored_tuples w memory_id "derived_from")
        sources ← lift derived
        written ← gets (λ w. outside.stored_tuples w memory_id "writer")
        writers ← lift written
        delete_tuples outside (sources ++ writers)

  -- Only the subject the memory was written for may go on.
  unfoldable pub forget_owned : PrincipalChain → String → Option MemoryRecord → Exec (Unit {0})
  forget_owned chain memory_id none = do
    deny_read env chain memory_id "not_written_for"
    lift (raised memory_denied)
  forget_owned chain memory_id (some row) =
      if not (row.written_for == chain.subject)
      then (deny_read env chain memory_id "not_written_for" >> lift (raised memory_denied))
      else do
        decision ←
            decide_all env chain remember [] (some (memory_id ∷ [])) (some memory_id) none none
        forget_decided row memory_id decision

  unfoldable pub forget : PrincipalChain → String → Option ResourcePermits → Exec (Unit {0})
  forget chain memory_id permits = do
    lift (validate_ref memory_id "memory")
    refused ← lift (refused_resources permits Kind.remember (memory_id ∷ []))
    if not (is_empty refused)
        then (deny_read env chain memory_id "token_check_failed"
            >> lift (refused_with "token_check_failed"))
        else (get outside memory_id >>= λ row. forget_owned chain memory_id row)
