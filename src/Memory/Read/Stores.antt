-- ===== src/Memory/Read/Stores.antt =====
-- Recall leaves every store alone: it only journals.
use headofcontext.Prelude.{ℕ, String, Option, none, some, List, [], ◌∷◌}
use headofcontext.Prelude.Int.{ℤ}
use headofcontext.Core.Errors.{Exception, hoc, other, HocError, Result, ok, err}
use headofcontext.Core.Chain.{PrincipalChain}
use headofcontext.Core.Events.{EventKind}
use headofcontext.Core.Decider.Total.{decide_all-Logs}
use headofcontext.Memory.Record.{MemoryRecord, Memory, Candidate}
use headofcontext.Memory.Parts.{ResourcePermits, MemoryEnv, unless_fails, get_by_backend_ref}
use headofcontext.Memory.{on_hoc_error, memory_event, deny_read, refuse_read}
use headofcontext.Memory.Read.{
  gather, raw_sources, sources_of, decide_read, admit_permitted, admit_rows, admit_unguarded, admit,
  collect, recall_found, recall,
}
use headofcontext.World.{World, Env, Exec}
use headofcontext.World.Logged.{SameStores, SameStores-refl, SameStores-trans, Logs, logs_rules}
use headofcontext.World.Stores.{
  KeepsStores, KeepsStores-of_Logs, KeepsStores-bind, KeepsStores-pure, KeepsStores-lift,
  KeepsStores-gets, stores_rules,
}

module _ {A : Type 0} where
  KeepsStores-on_hoc_error :
      (handler : HocError → Exec A)
      → ((e : HocError) → KeepsStores (handler e))
      → (w : World) (r : Result A) (v : World) → SameStores w v
      → SameStores w (on_hoc_error handler (r, v)).1
  KeepsStores-on_hoc_error handler k w (ok a) v s = s
  KeepsStores-on_hoc_error handler k w (err other) v s = s
  KeepsStores-on_hoc_error handler k w (err (hoc e)) v s = SameStores-trans w v _ s ((k e).at v)

  unless_fails-SameStores :
      (o : Option Exception) (r : Result A) (w : World) → SameStores w (unless_fails o (r, w) w).1
  unless_fails-SameStores none r w = SameStores-refl w
  unless_fails-SameStores (some e) r w = SameStores-refl w

module _ {Args : Type 0} (env : Env Args) (outside : MemoryEnv Args) where
  pub memory_event-Logs :
      (kind : EventKind) (chain : PrincipalChain) (memory_id outcome : String)
      (content_hash : Option String) (n : ℕ) (reason : Option String)
      → Logs (memory_event env kind chain memory_id outcome content_hash n reason)
  unfolding memory_event
  memory_event-Logs kind chain memory_id outcome content_hash n reason = search logs_rules

  deny_read-Logs :
      (chain : PrincipalChain) (memory_id reason : String)
      → Logs (deny_read env chain memory_id reason)
  unfolding deny_read
  deny_read-Logs chain memory_id reason = memory_event-Logs _ _ _ _ _ _ _

  refuse_read-KeepsStores :
      (chain : PrincipalChain) (memory_id reason : String)
      → KeepsStores (refuse_read env chain memory_id reason)
  unfolding refuse_read
  refuse_read-KeepsStores chain memory_id reason =
      search (stores_rules, KeepsStores-of_Logs, deny_read-Logs)

  get_by_backend_ref-KeepsStores : (ref : String) → KeepsStores (get_by_backend_ref outside ref)
  unfolding get_by_backend_ref
  get_by_backend_ref-KeepsStores ref = record {
    at = λ w. unless_fails-SameStores (outside.ledger_failure w) _ w;
  }

  gather-KeepsStores : (refs : List String) → KeepsStores (gather env outside refs)
  unfolding gather
  gather-KeepsStores [] = search stores_rules
  gather-KeepsStores (ref ∷ rest) =
      KeepsStores-bind _ _ (get_by_backend_ref-KeepsStores ref)
        λ row. KeepsStores-bind _ _ (gather-KeepsStores rest) λ rows. KeepsStores-pure _

  pub raw_sources-KeepsStores :
      (rows : List MemoryRecord) → KeepsStores (raw_sources env outside rows)
  unfolding raw_sources
  raw_sources-KeepsStores [] = search stores_rules
  raw_sources-KeepsStores (row ∷ rest) = KeepsStores-bind _ _ (KeepsStores-gets _) λ answer.
      KeepsStores-bind _ _ (KeepsStores-lift answer)
        λ tuples. KeepsStores-bind _ _ (raw_sources-KeepsStores rest) λ later. KeepsStores-pure _

  sources_of-KeepsStores : (rows : List MemoryRecord) → KeepsStores (sources_of env outside rows)
  unfolding sources_of
  sources_of-KeepsStores rows = search (stores_rules, raw_sources-KeepsStores)

  decide_read-KeepsStores :
      (chain : PrincipalChain) (candidate : Candidate) (primary : MemoryRecord)
      (rows : List MemoryRecord) (sources : List String)
      → KeepsStores (decide_read env outside chain candidate primary rows sources)
  unfolding decide_read
  decide_read-KeepsStores chain candidate primary rows sources =
      search (stores_rules, KeepsStores-of_Logs, decide_all-Logs, memory_event-Logs)

  admit_permitted-KeepsStores :
      (chain : PrincipalChain) (candidate : Candidate) (primary : MemoryRecord)
      (rows : List MemoryRecord) (sources : List String)
      → KeepsStores (admit_permitted env outside chain candidate primary rows sources)
  unfolding admit_permitted
  admit_permitted-KeepsStores chain candidate primary rows sources =
      search (stores_rules, refuse_read-KeepsStores, decide_read-KeepsStores)

  admit_rows-KeepsStores :
      (chain : PrincipalChain) (candidate : Candidate) (permits : Option ResourcePermits)
      (found : Option (List MemoryRecord))
      → KeepsStores (admit_rows env outside chain candidate permits found)
  unfolding admit_rows
  admit_rows-KeepsStores chain candidate permits none = refuse_read-KeepsStores _ _ _
  admit_rows-KeepsStores chain candidate permits (some []) = refuse_read-KeepsStores _ _ _
  admit_rows-KeepsStores chain candidate permits (some (primary ∷ others)) =
      search
        (stores_rules, sources_of-KeepsStores, refuse_read-KeepsStores, admit_permitted-KeepsStores)

  admit_unguarded-KeepsStores :
      (chain : PrincipalChain) (candidate : Candidate) (permits : Option ResourcePermits)
      → KeepsStores (admit_unguarded env outside chain candidate permits)
  unfolding admit_unguarded
  admit_unguarded-KeepsStores chain candidate permits =
      search (stores_rules, gather-KeepsStores, admit_rows-KeepsStores)

  pub admit-KeepsStores :
      (chain : PrincipalChain) (candidate : Candidate) (permits : Option ResourcePermits)
      → KeepsStores (admit env outside chain candidate permits)
  unfolding admit
  admit-KeepsStores chain candidate permits = record {
    at = λ w.
        KeepsStores-on_hoc_error _ (λ e. refuse_read-KeepsStores _ _ _) w
          (admit_unguarded env outside chain candidate permits w).0
          (admit_unguarded env outside chain candidate permits w).1
          ((admit_unguarded-KeepsStores chain candidate permits).at w);
  }

  collect-KeepsStores :
      (chain : PrincipalChain) (permits : Option ResourcePermits) (limit : ℕ)
      (candidates : List Candidate) (kept : List Memory)
      → KeepsStores (collect env outside chain permits limit candidates kept)
  unfolding collect
  collect-KeepsStores chain permits limit [] kept = search stores_rules
  collect-KeepsStores chain permits limit (candidate ∷ rest) kept =
      search (stores_rules, admit-KeepsStores, collect-KeepsStores chain permits limit rest)

  recall_found-KeepsStores :
      (chain : PrincipalChain) (permits : Option ResourcePermits) (limit : ℕ)
      (answer : Result (List Candidate))
      → KeepsStores (recall_found env outside chain permits limit answer)
  unfolding recall_found
  recall_found-KeepsStores chain permits limit (ok candidates) = collect-KeepsStores _ _ _ _ _
  recall_found-KeepsStores chain permits limit (err e) =
      search (stores_rules, KeepsStores-of_Logs, deny_read-Logs)

  -- Whatever recall does, returning or raising, no store changes.
  pub recall-KeepsStores :
      (chain : PrincipalChain) (query : String) (limit : ℤ) (permits : Option ResourcePermits)
      → KeepsStores (recall env outside chain query limit permits)
  unfolding recall
  recall-KeepsStores chain query limit permits = search (stores_rules, recall_found-KeepsStores)
