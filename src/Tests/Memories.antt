-- ===== src/Tests/Memories.antt =====
-- Runs of the memory service, and the theorems on it at these runs.
use headofcontext.Prelude.{
  ◌≡◌, refl, if◌then◌else◌, ℕ, String, Bool, ◌&&◌, none, some, List, [], ◌∷◌, ◌==◌, map, All, ◌⊎◌,
  ◌≤◌, length, lookup, insert, remove,
}
use headofcontext.Prelude.Int.{pos}
use headofcontext.Prelude.Sorted.{sorted_set, insert_text}
use headofcontext.Core.Errors.{Exception, other, Result, ok, err}
use headofcontext.Core.Capability.{Kind}
use headofcontext.Core.Chain.{PrincipalChain}
use headofcontext.Core.Refs.{validate_ref}
use headofcontext.Memory.Record.{MemoryRecord, Memory, Candidate}
use headofcontext.Memory.Parts.{
  MemoryEnv, find_by_ref, refused_resources, put, get, get_by_backend_ref, delete_row, write_tuples,
  delete_tuples, store, delete_content,
}
use headofcontext.Memory.{
  clamp, dedupe, validate_documents, digits, memory_event, deny_read, refuse_read,
}
use headofcontext.Memory.Read.{
  known_rows, gather, raw_sources, sources_of, decide_read, admit_permitted, admit_rows,
  admit_unguarded, admit, collect, recall_found, recall,
}
use headofcontext.Memory.Read.Stores.{recall-KeepsStores}
use headofcontext.Memory.Read.Recalled.{FromCandidate, recall_vouched, allowance, recall-length}
use headofcontext.Memory.Write.{
  provenance, erase_content, try_hoc, rollback, undo, put_row, after_store, persist,
  write_provenance, remember_decided, remember_permitted, remember_content, forget_decided,
  forget_owned, forget,
}
use headofcontext.Memory.Write.Forgotten.{Forgotten, forget-Forgotten}
use headofcontext.Memory.Write.Written.{Remembered, remember-Remembered}
use headofcontext.Memory.Write.Undone.{DeletesWork, Undone, Accepted, Raised, persist-Undone}
use headofcontext.World.{World, Env}
use headofcontext.World.Stores.{KeepsStores}
use headofcontext.Tests.Fixtures.{env, start, chain_of, path_open}

-- The user may view one document.
abbrev notes_batch : World → String → List (String × String) → Result (List Bool)
notes_batch w subject items =
    ok (map (λ (i : String × String). subject == "user:alice" && i.1 == "document:a") items)

abbrev notes_env : Env String
notes_env = record env { batch_check = notes_batch; policy = none }

abbrev note_taker : PrincipalChain
note_taker = chain_of (record {
  capabilities =
      record { kind = Kind.remember; resource = "document:*" }
      ∷ record { kind = Kind.remember; resource = "memory:*" }
      ∷ record { kind = Kind.read; resource = "memory:*" }
      ∷ [];
})

abbrev row_of_a : MemoryRecord
row_of_a = record {
  memory_id = "memory:a";
  written_for = "user:alice";
  written_by = "agent:bot";
  derived_from = "document:a" ∷ [];
  content_hash = "#a";
  backend = "local";
  backend_ref = "r1";
  created_at = pos 0;
}

-- The second row derives from a document that the user may not view.
abbrev row_of_b : MemoryRecord
row_of_b = record row_of_a {
  memory_id = "memory:b";
  derived_from = "document:b" ∷ [];
  backend_ref = "r2";
}

abbrev with_memories : World
with_memories = record start { ledger = ("memory:a", row_of_a) ∷ ("memory:b", row_of_b) ∷ [] }

abbrev hit : String → String → Candidate
hit content ref = record { content = content; backend_refs = ref ∷ [] }

abbrev found : List Candidate
found = hit "unknown" "r0" ∷ hit "secret" "r2" ∷ hit "note" "r1" ∷ []

abbrev outside : MemoryEnv String
outside = record {
  namespace = "hoc";
  adapter_name = "local";
  ledger_failure = λ w. none;
  put_failure = λ w r. none;
  write_tuples_failure = λ w l. none;
  delete_tuples_failure = λ w l. none;
  stored_tuples = λ w o r.
      if r == "writer"
      then ok (record { user = "agent:bot"; relation = "writer"; object = o } ∷ [])
      else ok [];
  store_content = λ w i c n. ok "r9";
  delete_failure = λ w r n. none;
  search = λ w q n l. ok found;
  content_hash = λ c. "#";
  content_args = λ c. "{}";
}

-- A ledger that takes no row.
abbrev full_ledger : MemoryEnv String
full_ledger = record outside { put_failure = λ w r. some other }

abbrev note : Memory
note = record {
  memory_id = "memory:a";
  content = "note";
  derived_from = "document:a" ∷ [];
  written_for = "user:alice";
  written_by = "agent:bot";
  created_at = pos 0;
}

-- Unfolding this unfolds the memory service.
unfoldable memory_open : ℕ
unfolding path_open clamp dedupe validate_documents validate_ref digits memory_event deny_read
    refuse_read known_rows gather raw_sources sources_of sorted_set insert_text decide_read
    admit_permitted admit_rows admit_unguarded admit collect recall_found recall refused_resources
    find_by_ref put get get_by_backend_ref delete_row write_tuples delete_tuples store
    delete_content erase_content try_hoc rollback undo put_row after_store persist write_provenance
    remember_decided remember_permitted remember_content forget_decided forget_owned forget lookup
    insert remove
memory_open = 0

-- Of three candidates, the one with a row that the user may view.
abbrev recalled : Result (List Memory) × World
recalled = recall notes_env outside note_taker "q" (pos 10) none with_memories

recall_note : recalled ≡ (ok (note ∷ []), recalled.1)
unfolding memory_open
recall_note = refl

abbrev VouchedNote : World → List Memory → Type 0
VouchedNote w memories =
    ((candidates : List Candidate) × (outside.search w "q" outside.namespace (clamp (pos 10))
        ≡ ok candidates)
      × All (FromCandidate notes_env outside note_taker none w candidates) memories)
    ⊎ (memories ≡ [])

recall_vouched_example : VouchedNote with_memories (note ∷ [])
recall_vouched_example =
    recall_vouched notes_env outside note_taker none "q" (pos 10) with_memories recall_note

recall_one :
    recall notes_env outside note_taker "q" (pos 0) none with_memories
    ≡ (ok (note ∷ []), (recall notes_env outside note_taker "q" (pos 0) none with_memories).1)
unfolding memory_open
recall_one = refl

recall-length_example : (length (note ∷ []) ≤ allowance (pos 0)) × (length (note ∷ []) ≤ 50)
recall-length_example =
    recall-length notes_env outside note_taker none "q" (pos 0) with_memories recall_one

recall-KeepsStores_example : KeepsStores (recall notes_env outside note_taker "q" (pos 10) none)
recall-KeepsStores_example = recall-KeepsStores notes_env outside note_taker "q" (pos 10) none

forget_note :
    forget notes_env outside note_taker "memory:a" none with_memories
    ≡ (ok tt, (forget notes_env outside note_taker "memory:a" none with_memories).1)
unfolding memory_open
forget_note = refl

forget-Forgotten_example :
    Forgotten notes_env outside note_taker none "memory:a" with_memories
      (forget notes_env outside note_taker "memory:a" none with_memories).1
forget-Forgotten_example =
    forget-Forgotten notes_env outside note_taker "memory:a" none with_memories forget_note

abbrev written : Memory
written = record {
  memory_id = "memory:i";
  content = "new";
  derived_from = "document:a" ∷ [];
  written_for = "user:alice";
  written_by = "agent:bot";
  created_at = pos 5;
}

abbrev sources_twice : List String
sources_twice = "document:a" ∷ "document:a" ∷ []

remember_new :
    remember_content notes_env outside note_taker "new" sources_twice none start
    ≡ (ok written, (remember_content notes_env outside note_taker "new" sources_twice none start).1)
unfolding memory_open
remember_new = refl

remember-Remembered_example :
    Remembered notes_env outside note_taker none "new" sources_twice written start
      (remember_content notes_env outside note_taker "new" sources_twice none start).1
remember-Remembered_example =
    remember-Remembered notes_env outside note_taker "new" sources_twice none start remember_new

deletes_work : DeletesWork notes_env full_ledger note_taker
deletes_work = record { content = λ w r. refl; tuples = λ w l. refl; row = λ w. refl }

abbrev failed_write : Result (Unit {0}) × World
failed_write =
    persist notes_env full_ledger note_taker "memory:n" "new" ("document:a" ∷ []) (pos 5) start

persist_fails : failed_write ≡ (err other, failed_write.1)
unfolding memory_open
persist_fails = refl

nothing_yet : lookup "memory:n" start.ledger ≡ none
unfolding lookup
nothing_yet = refl

-- Either both accept the memory, or one of them raises and the write is undone.
abbrev WrittenOrUndone : World → Result (Unit {0}) × World → Type 0
WrittenOrUndone w run =
    (Accepted notes_env full_ledger note_taker "memory:n" "new" ("document:a" ∷ []) (pos 5) w
      × (run.0 ≡ ok tt))
    ⊎ ((e : Exception) × Raised notes_env full_ledger note_taker "memory:n" "new"
          ("document:a" ∷ []) (pos 5) w e
        × (run.0 ≡ err e)
        × Undone notes_env full_ledger note_taker "memory:n" "new"
            (provenance note_taker "memory:n" ("document:a" ∷ [])) w run.1)

persist-Undone_example : WrittenOrUndone start failed_write
persist-Undone_example =
    persist-Undone notes_env full_ledger note_taker deletes_work "memory:n" "new"
      ("document:a" ∷ []) (pos 5) start nothing_yet
