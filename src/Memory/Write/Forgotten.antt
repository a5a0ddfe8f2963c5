-- ===== src/Memory/Write/Forgotten.antt =====
-- Forget: who may, and what is then gone.
use headofcontext.Prelude.{
  ◌≡◌, ◌≢◌, refl, sym, ◌∙◌, ap, subst, inl, inr, String, true, Option, none, some, List, [], ◌∷◌,
  ◌++◌, is_empty, is_empty_nil, arith, lookup, remove, lookup-remove, eq_iff, eq_refl, ◌==◌,
  Option-cases, Bool-cases,
}
use headofcontext.Core.Errors.{ok}
use headofcontext.Core.Capability.{Kind}
use headofcontext.Core.Scope
use headofcontext.Core.Chain.{PrincipalChain}
use headofcontext.Core.Decision.{Decision, is_allow, remember}
use headofcontext.Core.Decider.Laws.{capability}
use headofcontext.Core.Decider.All.{decide_all-allow_iff}
use headofcontext.Core.Decider.Total.{decide_all-Logs}
use headofcontext.Memory.Record.{MemoryRecord, Tuple, removed, erased}
use headofcontext.Memory.Parts.{
  ResourcePermits, MemoryEnv, refused_resources, get, delete_row, delete_tuples, delete_content,
}
use headofcontext.Memory.Write.{forget_decided, forget_owned, forget}
use headofcontext.World.{World, Env, ◌>>=◌}
use headofcontext.World.Logged.{SameStores}
use headofcontext.World.Stores.{KeepsStores-of_Logs}
use headofcontext.World.Returns.{bind_ok, lift_ok, gets_ok}

module _ {Args : Type 0} (env : Env Args) (outside : MemoryEnv Args) (chain : PrincipalChain) where
  abbrev pub erased_from : String → World → World
  erased_from ref w = record w { contents = w.contents ++ erased ref outside.namespace ∷ [] }

  abbrev pub row_removed : String → World → World
  row_removed memory_id w = record w { ledger = remove memory_id w.ledger }

  abbrev pub tuples_removed : List Tuple → World → World
  tuples_removed tuples w = record w { tuples = w.tuples ++ removed tuples ∷ [] }

  pub delete_content_ok :
      (ref : String) (w : World) {t : Unit {0}} {v : World}
      → delete_content outside ref w ≡ (ok t, v)
      → v ≡ erased_from ref w
  unfolding delete_content
  delete_content_ok ref w h = elim (Option-cases (outside.delete_failure w ref outside.namespace)) [
    | inl works ↦ ground arith
    | inr (e, fails) ↦ absurd (ground arith)
  ]

  pub delete_row_ok :
      (memory_id : String) (w : World) {t : Unit {0}} {v : World}
      → delete_row outside memory_id w ≡ (ok t, v)
      → v ≡ row_removed memory_id w
  unfolding delete_row
  delete_row_ok memory_id w h = elim (Option-cases (outside.ledger_failure w)) [
    | inl works ↦ ground arith
    | inr (e, fails) ↦ absurd (ground arith)
  ]

  pub delete_tuples_ok :
      (tuples : List Tuple) (w : World) {t : Unit {0}} {v : World}
      → delete_tuples outside tuples w ≡ (ok t, v)
      → v ≡ tuples_removed tuples w
  unfolding delete_tuples
  delete_tuples_ok tuples w h = elim (Option-cases (outside.delete_tuples_failure w tuples)) [
    | inl works ↦ ground arith
    | inr (e, fails) ↦ absurd (ground arith)
  ]

  -- The state after the content, the row and the tuples are deleted.
  abbrev pub without : MemoryRecord → String → List Tuple → World → World
  without row memory_id tuples w =
      tuples_removed tuples (row_removed memory_id (erased_from row.backend_ref w))

  -- The tuple store answers with these tuples for the memory's two relations.
  abbrev pub StoredFor : String → List Tuple → World → Type 0
  StoredFor memory_id tuples u =
      (sources : List Tuple) × (writers : List Tuple) × (outside.stored_tuples u memory_id
          "derived_from"
        ≡ ok sources)
      × (outside.stored_tuples u memory_id "writer" ≡ ok writers)
      × (tuples ≡ sources ++ writers)

  -- The state after the content and the row are deleted.
  abbrev row_gone : MemoryRecord → String → World → World
  row_gone row memory_id w = row_removed memory_id (erased_from row.backend_ref w)

  forget_decided_ok :
      (row : MemoryRecord) (memory_id : String) (d : Decision) (w : World) {t : Unit {0}}
      {v : World}
      → forget_decided env outside row memory_id d w ≡ (ok t, v)
      → (is_allow d.outcome ≡ true)
        × ((tuples : List Tuple) × StoredFor memory_id tuples (row_gone row memory_id w)
            × (v ≡ without row memory_id tuples w))
  unfolding forget_decided
  forget_decided_ok row memory_id d w {t} {v} h = elim (Bool-cases (is_allow d.outcome)) [
    | inr denied ↦ absurd (ground (arith, (lift_ok _ w (rw denied at h)).0))
    | inl allows ↦
        let (t1, u1, e1, h1) =
          bind_ok (delete_content outside row.backend_ref) _ w (rw allows at h) in
        let (t2, u2, e2, h2) = bind_ok (delete_row outside memory_id) _ u1 h1 in
        let (derived, u3, e3, h3) = bind_ok _ _ u2 h2 in
        let (sources, u4, e4, h4) = bind_ok _ _ u3 h3 in
        let (written, u5, e5, h5) = bind_ok _ _ u4 h4 in
        let (writers, u6, e6, h6) = bind_ok _ _ u5 h5 in
        (
          allows,
          (
            sources ++ writers,
            stored sources writers u1 u2 u4 (delete_content_ok row.backend_ref w e1)
                (delete_row_ok memory_id u1 e2) ((lift_ok _ u3 e4).1 ∙ (gets_ok _ u2 e3).1)
                (sym (gets_ok _ u2 e3).0 ∙ (lift_ok _ u3 e4).0)
                (sym (gets_ok _ u4 e5).0 ∙ (lift_ok _ u5 e6).0),
            settle (sources ++ writers) u1 u2 u3 u4 u5 u6 (delete_content_ok row.backend_ref w e1)
                (delete_row_ok memory_id u1 e2) (gets_ok _ u2 e3).1 (lift_ok _ u3 e4).1
                (gets_ok _ u4 e5).1 (lift_ok _ u5 e6).1
                (delete_tuples_ok (sources ++ writers) u6 h6),
          ),
        )
  ]
    where
      stored :
          (sources writers : List Tuple) (u1 u2 u4 : World)
          → u1 ≡ erased_from row.backend_ref w
          → u2 ≡ row_removed memory_id u1
          → u4 ≡ u2
          → outside.stored_tuples u2 memory_id "derived_from" ≡ ok sources
          → outside.stored_tuples u4 memory_id "writer" ≡ ok writers
          → StoredFor memory_id (sources ++ writers) (row_gone row memory_id w)
      stored sources writers u1 u2 u4 s1 s2 s4 first second =
          let at : u2 ≡ row_gone row memory_id w = s2 ∙ ap (row_removed memory_id) s1 in
          (
            sources,
            writers,
            ap (λ x. outside.stored_tuples x memory_id "derived_from") (sym at) ∙ first,
            ap (λ x. outside.stored_tuples x memory_id "writer") (sym (s4 ∙ at)) ∙ second,
            refl,
          )

      settle :
          (tuples : List Tuple) (u1 u2 u3 u4 u5 u6 : World)
          → u1 ≡ erased_from row.backend_ref w
          → u2 ≡ row_removed memory_id u1
          → u3 ≡ u2
          → u4 ≡ u3
          → u5 ≡ u4
          → u6 ≡ u5
          → v ≡ tuples_removed tuples u6
          → v ≡ without row memory_id tuples w
      settle tuples u1 u2 u3 u4 u5 u6 s1 s2 s3 s4 s5 s6 s7 =
          s7 ∙ ap (tuples_removed tuples) (s6 ∙ s5 ∙ s4 ∙ s3 ∙ s2 ∙ ap (row_removed memory_id) s1)

  forget_owned_ok :
      (memory_id : String) (found : Option MemoryRecord) (w : World) {t : Unit {0}} {v : World}
      → forget_owned env outside chain memory_id found w ≡ (ok t, v)
      → (row : MemoryRecord) × (found ≡ some row)
        × (row.written_for ≡ chain.subject)
        × (Scope.covers chain.scope (capability Kind.remember memory_id) ≡ true)
        × ((u : World) × (tuples : List Tuple) × SameStores w u
            × StoredFor memory_id tuples (row_gone row memory_id u)
            × (v ≡ without row memory_id tuples u))
  unfolding forget_owned
  forget_owned_ok memory_id none w h =
      let (t, u, e, h1) = bind_ok _ _ w h in absurd (ground (arith, (lift_ok _ u h1).0))
  forget_owned_ok memory_id (some row) w h = elim (Bool-cases (row.written_for == chain.subject)) [
    | inr other_owner ↦
        let (t, u, e, h1) = bind_ok _ _ w (rw other_owner at h) in
        absurd (ground (arith, (lift_ok _ u h1).0))
    | inl owner ↦
        let (d, u, e, h1) = bind_ok _ _ w (rw owner at h) in
        let (allows, (tuples, kept, s)) = forget_decided_ok row memory_id d u h1 in
        let both =
          decide_all-allow_iff env chain remember w [] (some (memory_id ∷ [])) (some memory_id) none
            none {d = d} (ap (λ r. r.0) e) in
        let inside = (both.0 (ground arith)).1 in
        let quiet =
          (KeepsStores-of_Logs _ (
              decide_all-Logs env chain remember [] (some (memory_id ∷ [])) (some memory_id) none
                none)).at
            w in
        (
          row,
          refl,
          (eq_iff row.written_for chain.subject).0 owner,
          ground arith,
          (u, tuples, subst (SameStores w) (ap (λ r. r.1) e) quiet, kept, s),
        )
  ]

  -- What forget was given, what it asked, and what is left.
  pub record Forgotten (permits : Option ResourcePermits) (memory_id : String) (w v : World)
      : Type 0 where
    pub row : MemoryRecord
    pub known : lookup memory_id w.ledger ≡ some row
    pub owner : row.written_for ≡ chain.subject
    pub permitted : refused_resources permits Kind.remember (memory_id ∷ []) ≡ ok []
    pub covered : Scope.covers chain.scope (capability Kind.remember memory_id) ≡ true
    pub gone : lookup memory_id v.ledger ≡ none
    pub others : (k : String) → k ≢ memory_id → lookup k v.ledger ≡ lookup k w.ledger
    pub content : v.contents ≡ w.contents ++ erased row.backend_ref outside.namespace ∷ []
    pub asked : World
    pub asked_ledger : asked.ledger ≡ v.ledger
    pub asked_contents : asked.contents ≡ v.contents
    pub asked_tuples : asked.tuples ≡ w.tuples
    pub tuples : List Tuple
    pub found : StoredFor memory_id tuples asked
    pub relations : v.tuples ≡ w.tuples ++ removed tuples ∷ []

  get_ok :
      (memory_id : String) (w : World) {found : Option MemoryRecord} {v : World}
      → get outside memory_id w ≡ (ok found, v)
      → (found ≡ lookup memory_id w.ledger) × (v ≡ w)
  unfolding get
  get_ok memory_id w h = elim (Option-cases (outside.ledger_failure w)) [
    | inl works ↦ (ground arith, ground arith)
    | inr (e, fails) ↦ absurd (ground arith)
  ]

  lookup-without :
      (row : MemoryRecord) (memory_id k : String) (tuples : List Tuple) (w : World)
      → k ≢ memory_id
      → lookup k (without row memory_id tuples w).ledger ≡ lookup k w.ledger
  lookup-without row memory_id k tuples w differ =
      lookup-remove memory_id k w.ledger ∙ elim (Bool-cases (memory_id == k)) [
        | inl same ↦ absurd (differ (sym ((eq_iff memory_id k).0 same)))
        | inr other_key ↦ rw other_key refl
      ]

  Forgotten-of :
      (permits : Option ResourcePermits) (memory_id : String) (w u v : World) (row : MemoryRecord)
      (tuples : List Tuple)
      → lookup memory_id w.ledger ≡ some row
      → row.written_for ≡ chain.subject
      → refused_resources permits Kind.remember (memory_id ∷ []) ≡ ok []
      → Scope.covers chain.scope (capability Kind.remember memory_id) ≡ true
      → SameStores w u
      → StoredFor memory_id tuples (row_gone row memory_id u)
      → v ≡ without row memory_id tuples u
      → Forgotten permits memory_id w v
  Forgotten-of permits memory_id w u v row tuples known owner permitted covered same found s =
      record {
        row = row;
        known = known;
        owner = owner;
        permitted = permitted;
        covered = covered;
        gone =
            ap (λ (x : World). lookup memory_id x.ledger) s
            ∙ lookup-remove memory_id memory_id u.ledger
            ∙ rw (eq_refl memory_id) refl;
        others = λ j differ.
            ap (λ (x : World). lookup j x.ledger) s
            ∙ lookup-without row memory_id j tuples u differ
            ∙ ap (lookup j) same.ledger;
        content =
            ap (λ (x : World). x.contents) s
            ∙ ap (λ c. c ++ erased row.backend_ref outside.namespace ∷ []) same.contents;
        asked = row_gone row memory_id u;
        asked_ledger = sym (ap (λ (x : World). x.ledger) s);
        asked_contents = sym (ap (λ (x : World). x.contents) s);
        asked_tuples = same.tuples;
        tuples = tuples;
        found = found;
        relations = ap (λ (x : World). x.tuples) s ∙ ap (λ l. l ++ removed tuples ∷ []) same.tuples;
      }

  -- When forget returns, the memory had a row, written for the chain's subject; the token's checks
  -- do not refuse it and the actor's scope covers remembering it. Afterwards the ledger has no row
  -- under the id and every other row as before, the backend accepted the deletion of the row's
  -- content, and the tuple store the deletion of exactly the tuples that it found for the memory
  -- under `derived_from` and `writer`, asked when the content and the row were gone.
  pub forget-Forgotten :
      (memory_id : String) (permits : Option ResourcePermits) (w : World) {t : Unit {0}} {v : World}
      → forget env outside chain memory_id permits w ≡ (ok t, v)
      → Forgotten permits memory_id w v
  unfolding forget
  forget-Forgotten memory_id permits w {t} {v} h =
      let (r, u, e, h1) = bind_ok _ _ w h in
      let (refused, u2, e2, h2) = bind_ok _ _ u h1 in
      let (valid, stay) = lift_ok _ w e in
      let (answer, stay2) = lift_ok _ u e2 in
      elim (Bool-cases (is_empty refused)) [
        | inr some_refused ↦
            let (t, u3, e3, h3) = bind_ok _ _ u2 (rw some_refused at h2) in
            absurd (ground (arith, (lift_ok _ u3 h3).0))
        | inl all_permitted ↦
            permitted_part refused u2 (stay2 ∙ stay) answer all_permitted (rw all_permitted at h2)
      ]
    where
      permitted_part :
          (refused : List String) (u2 : World)
          → u2 ≡ w
          → refused_resources permits Kind.remember (memory_id ∷ []) ≡ ok refused
          → is_empty refused ≡ true
          → (get outside memory_id >>= λ row. forget_owned env outside chain memory_id row) u2
            ≡ (ok t, v)
          → Forgotten permits memory_id w v
      permitted_part refused u2 stay answer all_permitted k =
          let (found, u3, e3, h3) = bind_ok (get outside memory_id) _ w (rw stay at k) in
          let (is_found, stay3) = get_ok memory_id w e3 in
          let (row, some_row, owner, covered, (u, tuples, same, stored, s)) =
            forget_owned_ok memory_id found w (rw stay3 at h3) in
          Forgotten-of permits memory_id w u v row tuples (sym is_found ∙ some_row) owner
            (answer ∙ ap (λ l. ok l) (is_empty_nil refused all_permitted)) covered same stored s
