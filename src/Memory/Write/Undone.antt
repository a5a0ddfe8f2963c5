-- ===== src/Memory/Write/Undone.antt =====
-- Remember: a write that failed half-way is undone, while the deletions work.
use headofcontext.Prelude.{
  ◌≡◌, refl, sym, ◌∙◌, ap, inl, inr, ◌⊎◌, String, Option, none, some, List, [], ◌∷◌, ◌++◌, lookup,
  remove, lookup-remove, eq_iff, ◌==◌, Option-cases, Bool-cases, Dict,
}
use headofcontext.Prelude.Int.{ℤ}
use headofcontext.Core.Errors.{Exception, Result, ok, err, Result-cases}
use headofcontext.Core.Chain.{PrincipalChain}
use headofcontext.Memory.Record.{MemoryRecord, Tuple, removed, stored, erased}
use headofcontext.Memory.Parts.{MemoryEnv, put, store, delete_content, delete_tuples, delete_row}
use headofcontext.Memory.Write.{
  provenance, row_of, erase_content, try_hoc, rollback, undo, put_row, after_store, persist,
}
use headofcontext.World.{World, Env, ◌>>=◌, lift}

module _ {Args : Type 0} (env : Env Args) (outside : MemoryEnv Args) (chain : PrincipalChain) where
  -- No deletion fails.
  pub record DeletesWork : Type 0 where
    pub content : (w : World) (ref : String) → outside.delete_failure w ref outside.namespace ≡ none
    pub tuples : (w : World) (l : List Tuple) → outside.delete_tuples_failure w l ≡ none
    pub row : (w : World) → outside.ledger_failure w ≡ none

  -- The state after the rollback, from the one after the content's.
  abbrev rolled_back : String → List Tuple → World → World
  rolled_back memory_id tuples w = record w {
    tuples = w.tuples ++ removed tuples ∷ [];
    ledger = remove memory_id w.ledger;
  }

  abbrev content_erased : Option String → World → World
  content_erased none w = w
  content_erased (some ref) w = record w {
    contents = w.contents ++ erased ref outside.namespace ∷ [];
  }

  erase_content_lem :
      DeletesWork
      → (ref : Option String) (w : World)
      → erase_content env outside ref w ≡ (ok tt, content_erased ref w)
  unfolding erase_content delete_content
  erase_content_lem works none w = refl
  erase_content_lem works (some ref) w = rw (works.content w ref) refl

  undo_lem :
      DeletesWork
      → (memory_id : String) (tuples : List Tuple) (ref : Option String) (e : Exception) (w : World)
      → undo env outside memory_id tuples ref e w
        ≡ (err e, rolled_back memory_id tuples (content_erased ref w))
  unfolding undo rollback try_hoc delete_tuples delete_row lift ◌>>=◌
  undo_lem works memory_id tuples ref e w =
      let u = content_erased ref w in
      rw
        (
          erase_content_lem works ref w,
          works.tuples u tuples,
          works.row (record u { tuples = u.tuples ++ removed tuples ∷ [] }),
        )
        refl

  -- What is left of a write that was undone: the content, if it was stored, is erased again.
  pub record Undone (memory_id content : String) (tuples : List Tuple) (w v : World) : Type 0 where
    pub ledger : (k : String) → lookup k v.ledger ≡ lookup k w.ledger
    pub relations : v.tuples ≡ w.tuples ++ removed tuples ∷ []
    pub contents :
        (v.contents ≡ w.contents)
        ⊎ ((ref : String) × (v.contents
              ≡ (w.contents ++ stored memory_id content outside.namespace ref ∷ [])
                ++ erased ref outside.namespace ∷ []))

  lookup-remove_absent :
      (memory_id k : String) (rows : Dict MemoryRecord)
      → lookup memory_id rows ≡ none
      → lookup k (remove memory_id rows) ≡ lookup k rows
  lookup-remove_absent memory_id k rows absent =
      lookup-remove memory_id k rows ∙ elim (Bool-cases (memory_id == k)) [
        | inl same ↦ rw same (sym absent ∙ ap (λ j. lookup j rows) ((eq_iff memory_id k).0 same))
        | inr differ ↦ rw differ refl
      ]

  abbrev content_stored : String → String → String → World → World
  content_stored memory_id content ref w = record w {
    contents = w.contents ++ stored memory_id content outside.namespace ref ∷ [];
  }

  store_answer :
      (memory_id content : String) (w : World)
      → ((e : Exception)
          → outside.store_content w memory_id content outside.namespace ≡ err e
          → store outside memory_id content w ≡ (err e, w))
        × ((ref : String)
            → outside.store_content w memory_id content outside.namespace ≡ ok ref
            → store outside memory_id content w ≡ (ok ref, content_stored memory_id content ref w))
  unfolding store
  store_answer memory_id content w = (λ e h. rw (store, h) refl, λ ref h. rw (store, h) refl)

  put_row_failed :
      DeletesWork
      → (memory_id content : String) (sources : List String) (at : ℤ) (ref : String) (u : World)
        (e : Exception)
      → outside.put_failure u (row_of env outside chain memory_id content sources at ref) ≡ some e
      → put_row env outside chain memory_id content sources at ref u ≡ (
        err e,
        rolled_back memory_id (provenance chain memory_id sources) (content_erased (some ref) u),
      )
  unfolding put_row put
  put_row_failed works memory_id content sources at ref u e failed =
      rw failed (undo_lem works memory_id (provenance chain memory_id sources) (some ref) e u)

  put_row_taken :
      (memory_id content : String) (sources : List String) (at : ℤ) (ref : String) (u : World)
      → outside.put_failure u (row_of env outside chain memory_id content sources at ref) ≡ none
      → (put_row env outside chain memory_id content sources at ref u).0 ≡ ok tt
  unfolding put_row put
  put_row_taken memory_id content sources at ref u taken = rw taken refl

  -- What persist does with the backend's answer.
  persist-eq :
      (memory_id content : String) (sources : List String) (at : ℤ) (w : World) {r : Result String}
      {u : World}
      → store outside memory_id content w ≡ (r, u)
      → persist env outside chain memory_id content sources at w
        ≡ after_store env outside chain memory_id content sources at r u
  unfolding persist
  persist-eq memory_id content sources at w s =
      ap (λ p. after_store env outside chain memory_id content sources at p.0 p.1) s

  -- What persist does when the backend raises, when the ledger does, and when neither does.
  store_raises :
      DeletesWork
      → (memory_id content : String) (sources : List String) (at : ℤ) (w : World) (e : Exception)
      → outside.store_content w memory_id content outside.namespace ≡ err e
      → persist env outside chain memory_id content sources at w
        ≡ (err e, rolled_back memory_id (provenance chain memory_id sources) w)
  unfolding after_store
  store_raises works memory_id content sources at w e failed =
      persist-eq memory_id content sources at w ((store_answer memory_id content w).0 e failed)
      ∙ undo_lem works memory_id (provenance chain memory_id sources) none e w

  put_raises :
      DeletesWork
      → (memory_id content : String) (sources : List String) (at : ℤ) (w : World) (ref : String)
        (e : Exception)
      → outside.store_content w memory_id content outside.namespace ≡ ok ref
      → outside.put_failure
          (content_stored memory_id content ref w)
          (row_of env outside chain memory_id content sources at ref)
        ≡ some e
      → persist env outside chain memory_id content sources at w ≡ (
        err e,
        rolled_back memory_id
            (provenance chain memory_id sources)
            (content_erased (some ref) (content_stored memory_id content ref w)),
      )
  unfolding after_store
  put_raises works memory_id content sources at w ref e accepted failed =
      persist-eq memory_id content sources at w ((store_answer memory_id content w).1 ref accepted)
      ∙ put_row_failed works memory_id content sources at ref
          (content_stored memory_id content ref w) e failed

  both_accept :
      (memory_id content : String) (sources : List String) (at : ℤ) (w : World) (ref : String)
      → outside.store_content w memory_id content outside.namespace ≡ ok ref
      → outside.put_failure
          (content_stored memory_id content ref w)
          (row_of env outside chain memory_id content sources at ref)
        ≡ none
      → (persist env outside chain memory_id content sources at w).0 ≡ ok tt
  unfolding after_store
  both_accept memory_id content sources at w ref accepted taken =
      ap (λ r. r.0)
        (persist-eq memory_id content sources at w
          ((store_answer memory_id content w).1 ref accepted))
      ∙ put_row_taken memory_id content sources at ref (content_stored memory_id content ref w)
          taken

  -- The backend stores the content and the ledger takes the row.
  abbrev pub Accepted : String → String → List String → ℤ → World → Type 0
  Accepted memory_id content sources at w =
      (ref : String) × (outside.store_content w memory_id content outside.namespace ≡ ok ref)
      × (outside.put_failure (content_stored memory_id content ref w)
            (row_of env outside chain memory_id content sources at ref)
          ≡ none)

  -- The backend raises the exception, or it stores the content and the ledger raises it.
  abbrev pub Raised : String → String → List String → ℤ → World → Exception → Type 0
  Raised memory_id content sources at w e =
      (outside.store_content w memory_id content outside.namespace ≡ err e)
      ⊎ ((ref : String) × (outside.store_content w memory_id content outside.namespace ≡ ok ref)
          × (outside.put_failure (content_stored memory_id content ref w)
                (row_of env outside chain memory_id content sources at ref)
              ≡ some e))

  -- While deletions work, and the new id has no row yet: either the backend and the ledger accept
  -- the memory and the write returns; or one of them raises, the write raises that same exception,
  -- and then the ledger holds what it held, the tuple store accepted the deletion of the memory's
  -- tuples, and content that was stored is erased.
  pub persist-Undone :
      DeletesWork
      → (memory_id content : String) (sources : List String) (at : ℤ) (w : World)
      → lookup memory_id w.ledger ≡ none
      → (Accepted memory_id content sources at w
          × ((persist env outside chain memory_id content sources at w).0 ≡ ok tt))
        ⊎ ((e : Exception) × Raised memory_id content sources at w e
            × ((persist env outside chain memory_id content sources at w).0 ≡ err e)
            × Undone memory_id content
                (provenance chain memory_id sources)
                w
                (persist env outside chain memory_id content sources at w).1)
  persist-Undone works memory_id content sources at w absent =
      elim (Result-cases (outside.store_content w memory_id content outside.namespace)) [
        | inr (e, failed) ↦
            let s = store_raises works memory_id content sources at w e failed in
            inr (
              e,
              inl failed,
              ap (λ r. r.0) s,
              rw s (record {
                ledger = λ j. lookup-remove_absent memory_id j w.ledger absent;
                relations = refl;
                contents = inl refl;
              }),
            )
        | inl (ref, accepted) ↦
            elim (Option-cases (
              outside.put_failure (content_stored memory_id content ref w)
                (row_of env outside chain memory_id content sources at ref))) [
                  | inl taken ↦ inl (
                    (ref, accepted, taken),
                    both_accept memory_id content sources at w ref accepted taken,
                  )
                  | inr (e, failed) ↦
                      let s =
                        put_raises works memory_id content sources at w ref e accepted failed in
                      inr (
                        e,
                        inr (ref, accepted, failed),
                        ap (λ r. r.0) s,
                        rw s (record {
                          ledger = λ j. lookup-remove_absent memory_id j w.ledger absent;
                          relations = refl;
                          contents = inr (ref, refl);
                        }),
                      )
                ]
      ]
