-- ===== src/Memory/Write/Written.antt =====
-- Remember: what a memory that was written stands on.
use headofcontext.Prelude.{
  ◌≡◌, ◌≢◌, ◌↔◌, Member, here, there, refl, sym, ◌∙◌, ap, subst, inl, inr, String, true, Option,
  none, some, List, [], ◌∷◌, ◌++◌, is_empty, is_empty_nil, arith, insert, Option-cases, Bool-cases,
}
use headofcontext.Prelude.Int.{ℤ}
use headofcontext.Core.Errors.{Exception, hoc, other, Result, ok, err, Result-cases}
use headofcontext.Core.Capability.{Kind}
use headofcontext.Core.Chain.{PrincipalChain}
use headofcontext.Core.Decision.{Decision, is_allow, remember, no_context}
use headofcontext.Core.Decider.All.{AllowsAll, decide_all-allow_iff}
use headofcontext.Core.Decider.Total.{decide_all-Logs}
use headofcontext.Core.Events.{◌+++◌}
use headofcontext.Memory.Record.{MemoryRecord, Memory, Tuple, wrote, stored}
use headofcontext.Memory.Parts.{
  ResourcePermits, MemoryEnv, refused_resources, put, write_tuples, store,
}
use headofcontext.Memory.{dedupe, or_memory}
use headofcontext.Memory.Sources.{NoRepeat, Member-dedupe, dedupe-NoRepeat}
use headofcontext.Memory.Read.Stores.{memory_event-Logs}
use headofcontext.Memory.Write.{
  provenance, row_of, undo, put_row, after_store, persist, write_provenance, remember_decided,
  remember_permitted, remember_content,
}
use headofcontext.World.{World, Env, lift}
use headofcontext.World.Logged.{SameStores, IsQuiet-uuid4, IsQuiet-now}
use headofcontext.World.Stores.{KeepsStores-of_Logs, KeepsStores-of_IsQuiet, kept_stores}
use headofcontext.World.Returns.{bind_ok, lift_ok, pure_ok}

-- The tuples of a memory name each of its sources, and its writer.
Member-derivation :
    (chain : PrincipalChain) (memory_id : String) (sources : List String) (s : String)
    → Member s sources
    → Member
        (record { user = s; relation = "derived_from"; object = memory_id })
        (provenance chain memory_id sources)
Member-derivation chain memory_id [] s m = elim m [ ]
Member-derivation chain memory_id (x ∷ rest) s (here e) =
    here (ap (λ u. record { user = u; relation = "derived_from"; object = memory_id }) e)
Member-derivation chain memory_id (x ∷ rest) s (there m) =
    there (Member-derivation chain memory_id rest s m)

Member-writer :
    (chain : PrincipalChain) (memory_id : String) (sources : List String)
    → Member
        (record { user = chain.actor; relation = "writer"; object = memory_id })
        (provenance chain memory_id sources)
Member-writer chain memory_id [] = here refl
Member-writer chain memory_id (x ∷ rest) = there (Member-writer chain memory_id rest)

module _ {Args : Type 0} (env : Env Args) (outside : MemoryEnv Args) (chain : PrincipalChain) where
  undo_raises :
      (memory_id : String) (tuples : List Tuple) (ref : Option String) (e : Exception) (w : World)
      {t : Unit {0}} {v : World}
      → undo env outside memory_id tuples ref e w ≢ (ok t, v)
  unfolding undo
  undo_raises memory_id tuples ref e w h =
      let (t, u, e1, h1) = bind_ok _ _ w h in absurd (ground (arith, (lift_ok _ u h1).0))

  -- The state with the content stored and the row put.
  abbrev with_row : MemoryRecord → String → World → World
  with_row row content w = record w {
    contents = w.contents ++ stored row.memory_id content outside.namespace row.backend_ref ∷ [];
    ledger = insert row.memory_id row w.ledger;
  }

  -- The ledger's part of a write.
  abbrev row_added : MemoryRecord → World → World
  row_added row w = record w { ledger = insert row.memory_id row w.ledger }

  after_store_ok :
      (memory_id content : String) (sources : List String) (at : ℤ) (answer : Result String)
      (u : World) {t : Unit {0}} {v : World}
      → after_store env outside chain memory_id content sources at answer u ≡ (ok t, v)
      → (ref : String) × (answer ≡ ok ref)
        × (v ≡ row_added (row_of env outside chain memory_id content sources at ref) u)
  unfolding after_store put_row put
  after_store_ok memory_id content sources at (err e) u h =
      absurd (undo_raises memory_id _ none e u h)
  after_store_ok memory_id content sources at (ok ref) u h =
      let row = row_of env outside chain memory_id content sources at ref in
      elim (Option-cases (outside.put_failure u row)) [
        | inl works ↦ (ref, refl, ground arith)
        | inr (e, fails) ↦ absurd (undo_raises memory_id _ (some ref) e u (rw fails at h))
      ]

  store_ok :
      (memory_id content ref : String) (w : World)
      → (store outside memory_id content w).0 ≡ ok ref
      → (store outside memory_id content w).1
        ≡ record w { contents = w.contents ++ stored memory_id content outside.namespace ref ∷ [] }
  unfolding store
  store_ok memory_id content ref w h =
      elim (Result-cases (outside.store_content w memory_id content outside.namespace)) [
        | inr (e, failed) ↦ absurd (ground arith)
        | inl (found, is_stored) ↦ ground arith
      ]

  persist_ok :
      (memory_id content : String) (sources : List String) (at : ℤ) (w : World) {t : Unit {0}}
      {v : World}
      → persist env outside chain memory_id content sources at w ≡ (ok t, v)
      → (ref : String) × (v
          ≡ with_row (row_of env outside chain memory_id content sources at ref) content w)
  unfolding persist
  persist_ok memory_id content sources at w h =
      let (ref, is_stored, s) =
        after_store_ok memory_id content sources at (store outside memory_id content w).0
          (store outside memory_id content w).1 h in
      (
        ref,
        s
            ∙ ap (row_added (row_of env outside chain memory_id content sources at ref))
                (store_ok memory_id content ref w is_stored),
      )

  write_provenance_ok :
      (tuples : List Tuple) (w : World) {t : Unit {0}} {v : World}
      → write_provenance env outside tuples w ≡ (ok t, v)
      → v ≡ record w { tuples = w.tuples ++ wrote tuples ∷ [] }
  unfolding write_provenance write_tuples lift
  write_provenance_ok tuples w h = elim (Option-cases (outside.write_tuples_failure w tuples)) [
    | inl works ↦ ground arith
    | inr (other, fails) ↦ absurd (ground arith)
    | inr (hoc e, fails) ↦ absurd (ground arith)
  ]

  -- What is written of a memory: its row, its tuples and its content, and nothing else.
  pub record Kept (content : String) (m : Memory) (w v : World) : Type 0 where
    pub row : MemoryRecord
    pub ledger : v.ledger ≡ insert m.memory_id row w.ledger
    pub written_for : row.written_for ≡ chain.subject
    pub derived_from : row.derived_from ≡ m.derived_from
    pub tuples : v.tuples ≡ w.tuples ++ wrote (provenance chain m.memory_id m.derived_from) ∷ []
    pub contents :
        v.contents ≡ w.contents ++ stored m.memory_id content outside.namespace row.backend_ref ∷ []

  remember_decided_ok :
      (memory_id content : String) (sources : List String) (d : Decision) (w : World) {m : Memory}
      {v : World}
      → remember_decided env outside chain memory_id content sources d w ≡ (ok m, v)
      → (is_allow d.outcome ≡ true)
        × (m.memory_id ≡ memory_id)
        × (m.derived_from ≡ sources)
        × Kept content m w v
  unfolding remember_decided
  remember_decided_ok memory_id content sources d w {m} {v} h =
      elim (Bool-cases (is_allow d.outcome)) [
        | inr denied ↦ absurd (ground (arith, (lift_ok _ w (rw denied at h)).0))
        | inl allows ↦
            let (at, u1, e1, h1) = bind_ok _ _ w (rw allows at h) in
            let (t2, u2, e2, h2) = bind_ok _ _ u1 h1 in
            let (t3, u3, e3, h3) = bind_ok _ _ u2 h2 in
            let (t4, u4, e4, h4) = bind_ok _ _ u3 h3 in
            settle allows at u1 u2 u3 u4
              (kept_stores (KeepsStores-of_IsQuiet _ (IsQuiet-now env)) e1)
              (write_provenance_ok _ u1 e2) (persist_ok memory_id content sources at u2 e3)
              (kept_stores (KeepsStores-of_Logs _ (memory_event-Logs env outside _ _ _ _ _ _ _)) e4)
              (pure_ok _ u4 h4)
      ]
    where
      settle :
          (is_allow d.outcome ≡ true)
          → (at : ℤ) (u1 u2 u3 u4 : World) → SameStores w u1
          → u2 ≡ record u1 { tuples = u1.tuples ++ wrote (provenance chain memory_id sources) ∷ [] }
          → (ref : String) × (u3
              ≡ with_row (row_of env outside chain memory_id content sources at ref) content u2)
          → SameStores u3 u4
          → (m ≡ record {
            memory_id = memory_id;
            content = content;
            derived_from = sources;
            written_for = chain.subject;
            written_by = chain.actor;
            created_at = at;
          })
            × (v ≡ u4)
          → (is_allow d.outcome ≡ true)
            × (m.memory_id ≡ memory_id)
            × (m.derived_from ≡ sources)
            × Kept content m w v
      settle allows at u1 u2 u3 u4 s1 s2 (ref, s3) s4 (is, s5) = (
        allows,
        ap (λ (x : Memory). x.memory_id) is,
        ap (λ (x : Memory). x.derived_from) is,
        record {
          row = row_of env outside chain memory_id content sources at ref;
          ledger =
              ap (λ (x : World). x.ledger) s5
              ∙ s4.ledger
              ∙ ap (λ (x : World). x.ledger) s3
              ∙ rw (is) (
                  ap (insert memory_id (row_of env outside chain memory_id content sources at ref))
                    (ap (λ (x : World). x.ledger) s2 ∙ s1.ledger));
          written_for = refl;
          derived_from = sym (ap (λ (x : Memory). x.derived_from) is);
          tuples =
              ap (λ (x : World). x.tuples) (s5)
              ∙ s4.tuples
              ∙ ap (λ (x : World). x.tuples) s3
              ∙ ap (λ (x : World). x.tuples) s2
              ∙ rw is (ap (λ l. l ++ wrote (provenance chain memory_id sources) ∷ []) s1.tuples);
          contents =
              ap (λ (x : World). x.contents) (s5)
              ∙ s4.contents
              ∙ ap (λ (x : World). x.contents) s3
              ∙ rw is (
                  ap (λ l. l ++ stored memory_id content outside.namespace ref ∷ [])
                    (ap (λ (x : World). x.contents) s2 ∙ s1.contents));
        },
      )

  -- A write from a state with the same stores.
  Kept-same :
      (content : String) (m : Memory) (w u v : World)
      → SameStores w u
      → Kept content m u v
      → Kept content m w v
  Kept-same content m w u v same k = record {
    row = k.row;
    ledger = k.ledger ∙ ap (insert m.memory_id k.row) same.ledger;
    written_for = k.written_for;
    derived_from = k.derived_from;
    tuples =
        k.tuples
        ∙ ap (λ l. l ++ wrote (provenance chain m.memory_id m.derived_from) ∷ []) same.tuples;
    contents =
        k.contents
        ∙ ap (λ l. l ++ stored m.memory_id content outside.namespace k.row.backend_ref ∷ [])
            same.contents;
  }

  -- What remember asked before it wrote, and what it wrote.
  pub record Remembered (permits : Option ResourcePermits) (content : String)
      (derived_from : List String) (m : Memory) (w v : World) : Type 0 where
    pub sources : (s : String) → Member s derived_from ↔ Member s m.derived_from
    pub no_repeat : NoRepeat m.derived_from
    pub derived :
        (s : String)
        → Member s m.derived_from
        → Member
            (record { user = s; relation = "derived_from"; object = m.memory_id })
            (provenance chain m.memory_id m.derived_from)
    pub signed :
        Member
          (record { user = chain.actor; relation = "writer"; object = m.memory_id })
          (provenance chain m.memory_id m.derived_from)
    pub permitted :
        refused_resources permits Kind.remember (or_memory m.derived_from m.memory_id) ≡ ok []
    pub at_decision : World
    pub same : SameStores w at_decision
    pub allowed :
        AllowsAll env chain remember at_decision m.derived_from
          (or_memory m.derived_from m.memory_id)
          true
          (outside.content_args content)
          no_context
    pub kept : Kept content m w v

  remember_permitted_ok :
      (memory_id content : String) (sources : List String) (w : World) {m : Memory} {v : World}
      → remember_permitted env outside chain memory_id content sources w ≡ (ok m, v)
      → AllowsAll env chain remember w sources
          (or_memory sources memory_id)
          true
          (outside.content_args content)
          no_context
        × (m.memory_id ≡ memory_id)
        × (m.derived_from ≡ sources)
        × Kept content m w v
  unfolding remember_permitted
  remember_permitted_ok memory_id content sources w {m} {v} h =
      let (d, u, e, h1) = bind_ok _ _ w h in
      let (allows, same_id, derived, kept) = remember_decided_ok memory_id content sources d u h1 in
      let both =
        decide_all-allow_iff env chain remember w sources (some (or_memory sources memory_id))
          (some memory_id) (some (outside.content_args content)) none {d = d} (ap (λ r. r.0) e) in
      let quiet =
        kept_stores
          (KeepsStores-of_Logs _ (
            decide_all-Logs env chain remember sources (some (or_memory sources memory_id))
              (some memory_id) (some (outside.content_args content)) none))
          e in
      (both.0 (ground arith), same_id, derived, Kept-same content m w u v quiet kept)

  -- When remember returns, its sources are the ones given, all of them and each once; the token's
  -- checks refuse none of them, the actor's scope covers each, and the engine and the policy allow
  -- the subject each (without a source, the new memory's id stands for them in the token's and the
  -- scope's test). The ledger then holds a row of these sources, written for the subject, under
  -- the memory's id and is otherwise as before; one write went to the tuple store, with each source
  -- and the writer, and one to the backend.
  pub remember-Remembered :
      (content : String) (derived_from : List String) (permits : Option ResourcePermits) (w : World)
      {m : Memory} {v : World}
      → remember_content env outside chain content derived_from permits w ≡ (ok m, v)
      → Remembered permits content derived_from m w v
  unfolding remember_content
  remember-Remembered content derived_from permits w {m} {v} h =
      let sources = dedupe derived_from in
      let (t1, u1, e1, h1) = bind_ok _ _ w h in
      let (fresh_id, u2, e2, h2) = bind_ok _ _ u1 h1 in
      let (refused, u3, e3, h3) = bind_ok _ _ u2 h2 in
      let memory_id = "memory:" +++ fresh_id in
      let (answer, stay3) = lift_ok _ u2 e3 in
      elim (Bool-cases (is_empty refused)) [
        | inr some_refused ↦
            let (t4, u4, e4, h4) = bind_ok _ _ u3 (rw some_refused at h3) in
            absurd (ground (arith, (lift_ok _ u4 h4).0))
        | inl all_permitted ↦
            settle memory_id refused u1 u2 u3 (lift_ok _ w e1).1
              (kept_stores (KeepsStores-of_IsQuiet _ (IsQuiet-uuid4 env)) e2) stay3
              (answer ∙ ap (λ l. ok l) (is_empty_nil refused all_permitted))
              (rw all_permitted at h3)
      ]
    where
      settle :
          (memory_id : String) (refused : List String) (u1 u2 u3 : World)
          → u1 ≡ w
          → SameStores u1 u2
          → u3 ≡ u2
          → refused_resources permits Kind.remember (or_memory (dedupe derived_from) memory_id)
            ≡ ok []
          → remember_permitted env outside chain memory_id content (dedupe derived_from) u3
            ≡ (ok m, v)
          → Remembered permits content derived_from m w v
      settle memory_id refused u1 u2 u3 s1 s2 s3 permitted k =
          let (allowed, same_id, derived, kept) =
            remember_permitted_ok memory_id content (dedupe derived_from) u3 k in
          let same : SameStores w u3 =
            subst (SameStores w) (sym s3) (subst (λ x. SameStores x u2) s1 s2) in
          record {
            sources = rw derived (Member-dedupe derived_from);
            no_repeat = rw derived (dedupe-NoRepeat derived_from);
            derived = λ s held. Member-derivation chain m.memory_id m.derived_from s held;
            signed = Member-writer chain m.memory_id m.derived_from;
            permitted = rw (derived, same_id) permitted;
            at_decision = u3;
            same = same;
            allowed = rw (derived, same_id) allowed;
            kept = Kept-same content m w u3 v same kept;
          }
