-- ===== src/Memory/Read/Sources.antt =====
-- What recall reads of the ledger and the tuple store: the rows of the references, and their sources.
use headofcontext.Prelude.{
  ◌≡◌, refl, sym, ◌∙◌, ap, subst, inl, inr, String, Option, none, some, List, [], ◌∷◌, ◌++◌, map,
  values, arith, All, All-imp, Member, Member-append_left, Member-append_right, Member-map,
  Option-cases,
}
use headofcontext.Prelude.Sorted.{sorted_set_complete}
use headofcontext.Core.Errors.{ok}
use headofcontext.Memory.Record.{MemoryRecord, Tuple}
use headofcontext.Memory.Parts.{MemoryEnv, find_by_ref, get_by_backend_ref}
use headofcontext.Memory.{tuple_users}
use headofcontext.Memory.Read.{known_rows, gather, raw_sources, sources_of}
use headofcontext.World.{World, Env}
use headofcontext.World.Returns.{bind_ok, pure_ok, lift_ok, gets_ok}

pub known_rows-some :
    (found : List (Option MemoryRecord)) {rows : List MemoryRecord}
    → known_rows found ≡ some rows
    → found ≡ map some rows
unfolding known_rows
known_rows-some [] h = ground arith
known_rows-some (none ∷ rest) h = absurd (ground arith)
known_rows-some (some row ∷ rest) {rows} h = elim (Option-cases (known_rows rest)) [
  | inl none_left ↦ absurd (ground arith)
  | inr (later, e) ↦
      let ih = known_rows-some rest e in
      let same : rows ≡ row ∷ later = ground arith in
      ap (◌∷◌ (some row)) ih ∙ ap (map some) (sym same)
]

module _ {Args : Type 0} (env : Env Args) (outside : MemoryEnv Args) where
  abbrev pub row_for : World → String → Option MemoryRecord
  row_for w ref = find_by_ref outside.adapter_name ref (values w.ledger)

  get_by_backend_ref_ok :
      (ref : String) (w : World) {row : Option MemoryRecord} {v : World}
      → get_by_backend_ref outside ref w ≡ (ok row, v)
      → (row ≡ row_for w ref) × (v ≡ w)
  unfolding get_by_backend_ref
  get_by_backend_ref_ok ref w h = elim (Option-cases (outside.ledger_failure w)) [
    | inl works ↦ (ground arith, ground arith)
    | inr (e, fails) ↦ absurd (ground arith)
  ]

  pub gather_ok :
      (refs : List String) (w : World) {found : List (Option MemoryRecord)} {v : World}
      → gather env outside refs w ≡ (ok found, v)
      → (found ≡ map (row_for w) refs) × (v ≡ w)
  unfolding gather
  gather_ok [] w h = pure_ok [] w h
  gather_ok (ref ∷ rest) w {found} {v} h =
      let (row, u, e, h1) = bind_ok (get_by_backend_ref outside ref) _ w h in
      let (rows, u2, e2, h2) = bind_ok (gather env outside rest) _ u h1 in
      let (same, stay) = get_by_backend_ref_ok ref w e in
      let (same2, stay2) = gather_ok rest u e2 in
      let (same3, stay3) = pure_ok (row ∷ rows) u2 h2 in
      (same3 ∙ rw (same2, stay, same) refl, stay3 ∙ stay2 ∙ stay)

  -- No source of the row, in the ledger or in the tuple store, is missing.
  pub record Sourced (w : World) (sources : List String) (row : MemoryRecord) : Type 0 where
    pub from_ledger : (d : String) → Member d row.derived_from → Member d sources
    pub tuples : List Tuple
    pub read : outside.stored_tuples w row.memory_id "derived_from" ≡ ok tuples
    pub from_tuples : (t : Tuple) → Member t tuples → Member t.user sources

  raw_sources_ok :
      (rows : List MemoryRecord) (w : World) {sources : List String} {v : World}
      → raw_sources env outside rows w ≡ (ok sources, v)
      → (All (Sourced w sources) rows) × (v ≡ w)
  unfolding raw_sources
  raw_sources_ok [] w h = (tt, (pure_ok [] w h).1)
  raw_sources_ok (row ∷ rest) w {sources} {v} h =
      let (answer, u, e, h1) = bind_ok _ _ w h in
      let (tuples, u2, e2, h2) = bind_ok _ _ u h1 in
      let (later, u3, e3, h3) = bind_ok (raw_sources env outside rest) _ u2 h2 in
      let (same, stay) = gets_ok _ w e in
      let (same2, stay2) = lift_ok answer u e2 in
      let (known, stay3) = raw_sources_ok rest u2 e3 in
      let (same4, stay4) = pure_ok _ u3 h3 in
      let own = tuple_users tuples in
      let front = row.derived_from ++ own in
      let widen : (s : String) → Member s later → Member s sources =
        λ s m. subst (Member s) (sym same4) (Member-append_right front later m) in
      let keep : (s : String) → Member s front → Member s sources =
        λ s m. subst (Member s) (sym same4) (Member-append_left front later m) in
      let first : Sourced w sources row = record {
        from_ledger = λ d m. keep d (Member-append_left row.derived_from own m);
        tuples = tuples;
        read = sym same ∙ same2;
        from_tuples = λ t m. keep t.user (
            Member-append_right row.derived_from own (Member-map (λ (x : Tuple). x.user) tuples m));
      } in
      (
        (
          first,
          All-imp rest
              (λ r s. record {
                from_ledger = λ d m. widen d (s.from_ledger d m);
                tuples = s.tuples;
                read =
                    subst (λ x. outside.stored_tuples x r.memory_id "derived_from" ≡ ok s.tuples)
                      (stay2 ∙ stay) s.read;
                from_tuples = λ t m. widen t.user (s.from_tuples t m);
              })
              known,
        ),
        stay4 ∙ stay3 ∙ stay2 ∙ stay,
      )

  pub sources_of_ok :
      (rows : List MemoryRecord) (w : World) {sources : List String} {v : World}
      → sources_of env outside rows w ≡ (ok sources, v)
      → (All (Sourced w sources) rows) × (v ≡ w)
  unfolding sources_of
  sources_of_ok rows w {sources} h =
      let (raw, u, e, h1) = bind_ok (raw_sources env outside rows) _ w h in
      let (known, stay) = raw_sources_ok rows w e in
      let (same, stay2) = pure_ok _ u h1 in
      let keep : (s : String) → Member s raw → Member s sources =
        λ s m. subst (Member s) (sym same) (sorted_set_complete raw m) in
      (
        All-imp rows
            (λ r s. record {
              from_ledger = λ d m. keep d (s.from_ledger d m);
              tuples = s.tuples;
              read = s.read;
              from_tuples = λ t m. keep t.user (s.from_tuples t m);
            })
            known,
        stay2 ∙ stay,
      )
