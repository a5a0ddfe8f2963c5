-- ===== src/Memory/Parts.antt =====
-- What the memory service composes: the ledger of memory/ledger.py, the tuple store and the backend
-- behind their protocols, and the token's checks of core/permits.py.
use headofcontext.Prelude.{
  ℕ, String, Bool, ◌&&◌, not, Option, none, some, List, [], ◌∷◌, ◌++◌, ◌==◌, Dict, lookup, insert,
  remove, values, filter, or_default, is_empty, if◌then◌else◌,
}
use headofcontext.Core.Errors.{Exception, Result, ok, err}
use headofcontext.Core.Capability.{Kind}
use headofcontext.Memory.Record.{MemoryRecord, Candidate, Tuple, wrote, removed, stored, erased}
use headofcontext.World.{World, Exec}

-- The answers of the token for some resources, which may raise; a missing one is a refusal.
abbrev pub ResourcePermits : Type 0
ResourcePermits = Kind → List String → Result (Dict Bool)

-- What comes from outside. A failure is the exception, if any, that a call meets in that state; a
-- read answers by the state. `content_args` is the mapping with the content's digest.
pub record MemoryEnv (Args : Type 0) : Type 0 where
  pub namespace : String
  pub adapter_name : String
  pub ledger_failure : World → Option Exception
  pub put_failure : World → MemoryRecord → Option Exception
  pub write_tuples_failure : World → List Tuple → Option Exception
  pub delete_tuples_failure : World → List Tuple → Option Exception
  pub stored_tuples : World → String → String → Result (List Tuple)
  pub store_content : World → String → String → String → Result String
  pub delete_failure : World → String → String → Option Exception
  pub search : World → String → String → ℕ → Result (List Candidate)
  pub content_hash : String → String
  pub content_args : String → Args

-- A call that raises in place of its effect.
abbrev pub unless_fails :
    {A : Type 0} → Option Exception → Result A × World → World → Result A × World
unless_fails none after w = after
unless_fails (some e) after w = (err e, w)

-- The first row of the dict with that backend and reference.
unfoldable pub find_by_ref : String → String → List MemoryRecord → Option MemoryRecord
find_by_ref backend ref [] = none
find_by_ref backend ref (row ∷ rest) =
    let later = find_by_ref backend ref rest in
    if row.backend == backend && row.backend_ref == ref then some row else later

-- `_refused`, on the answers.
abbrev pub refused_of : Dict Bool → List String → List String
refused_of answers resources =
    filter (λ r. not (or_default (lookup r answers) Bool.false)) resources

unfoldable pub refused_resources :
    Option ResourcePermits → Kind → List String → Result (List String)
refused_resources none operation resources = ok []
refused_resources (some permits) operation resources =
    if is_empty resources then ok [] else elim (permits operation resources) [
      | ok answers ↦ ok (refused_of answers resources)
      | err e ↦ err e
    ]

module _ {Args : Type 0} (outside : MemoryEnv Args) where
  -- The ledger.
  unfoldable pub put : MemoryRecord → Exec (Unit {0})
  put row w =
      unless_fails (outside.put_failure w row)
        (ok tt, record w { ledger = insert row.memory_id row w.ledger }) w

  unfoldable pub get : String → Exec (Option MemoryRecord)
  get memory_id w = unless_fails (outside.ledger_failure w) (ok (lookup memory_id w.ledger), w) w

  unfoldable pub get_by_backend_ref : String → Exec (Option MemoryRecord)
  get_by_backend_ref ref w =
      unless_fails (outside.ledger_failure w)
        (ok (find_by_ref outside.adapter_name ref (values w.ledger)), w) w

  unfoldable pub delete_row : String → Exec (Unit {0})
  delete_row memory_id w =
      unless_fails (outside.ledger_failure w)
        (ok tt, record w { ledger = remove memory_id w.ledger }) w

  -- The tuple store.
  unfoldable pub write_tuples : List Tuple → Exec (Unit {0})
  write_tuples tuples w =
      unless_fails (outside.write_tuples_failure w tuples)
        (ok tt, record w { tuples = w.tuples ++ wrote tuples ∷ [] }) w

  unfoldable pub delete_tuples : List Tuple → Exec (Unit {0})
  delete_tuples tuples w =
      unless_fails (outside.delete_tuples_failure w tuples)
        (ok tt, record w { tuples = w.tuples ++ removed tuples ∷ [] }) w

  -- The backend: a reference that it returned is one that it stored.
  unfoldable pub store : String → String → Exec String
  store memory_id content w = elim (outside.store_content w memory_id content outside.namespace) [
    | err e ↦ (err e, w)
    | ok ref ↦ (
      ok ref,
      record w { contents = w.contents ++ stored memory_id content outside.namespace ref ∷ [] },
    )
  ]

  unfoldable pub delete_content : String → Exec (Unit {0})
  delete_content ref w =
      unless_fails (outside.delete_failure w ref outside.namespace)
        (ok tt, record w { contents = w.contents ++ erased ref outside.namespace ∷ [] }) w
