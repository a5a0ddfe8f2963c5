-- ===== src/Memory/Read/Vouched.antt =====
-- Recall returns only what the ledger, the token, the scope, the engine and the policy vouch for.
use headofcontext.Prelude.{
  ◌≡◌, ◌≢◌, refl, sym, ◌∙◌, ap, subst, inl, inr, String, true, false, not, ◌&&◌, Option, none, some,
  List, [], ◌∷◌, ◌++◌, map, is_empty, is_empty_nil, arith, All, Option-cases, Bool-cases,
}
use headofcontext.Core.Errors.{hoc, other, Result, ok, err}
use headofcontext.Core.Capability.{Kind}
use headofcontext.Core.Chain.{PrincipalChain}
use headofcontext.Core.Decision.{is_allow, read_memory, no_context}
use headofcontext.Core.Decider.All.{AllowsAll, decide_all-allow_iff}
use headofcontext.Memory.Record.{MemoryRecord, Memory, Candidate}
use headofcontext.Memory.Parts.{ResourcePermits, MemoryEnv, refused_resources}
use headofcontext.Memory.{memory_ids, written_for_all, on_hoc_error, refuse_read}
use headofcontext.Memory.Read.{
  known_rows, gather, sources_of, decide_read, admit_permitted, admit_rows, first_ref,
  admit_unguarded, admit,
}
use headofcontext.World.{World, Env}
use headofcontext.World.Returns.{bind_ok, pure_ok, lift_ok}
use headofcontext.Memory.Read.Sources.{known_rows-some, row_for, gather_ok, Sourced, sources_of_ok}

module _ {Args : Type 0} (env : Env Args) (outside : MemoryEnv Args) (chain : PrincipalChain)
    (permits : Option ResourcePermits) where
  -- What makes a candidate readable in some state, as that memory.
  pub record Vouched (w : World) (candidate : Candidate) (m : Memory) : Type 0 where
    pub content : m.content ≡ candidate.content
    pub primary : MemoryRecord
    pub others : List MemoryRecord
    pub same_id : m.memory_id ≡ primary.memory_id
    pub ledger : map (row_for env outside w) candidate.backend_refs ≡ map some (primary ∷ others)
    pub sourced : All (Sourced env outside w m.derived_from) (primary ∷ others)
    pub permitted :
        refused_resources permits Kind.read (memory_ids (primary ∷ others) ++ m.derived_from)
        ≡ ok []
    pub owned : m.derived_from ≡ [] → written_for_all chain.subject (primary ∷ others) ≡ true
    pub allowed :
        AllowsAll env chain read_memory w m.derived_from
          (memory_ids (primary ∷ others))
          true
          env.no_args
          no_context

  refuse_read_none :
      (memory_id reason : String) (w : World) {m : Memory} {v : World}
      → refuse_read env chain memory_id reason w ≢ (ok (some m), v)
  unfolding refuse_read
  refuse_read_none memory_id reason w h =
      let (t, u, e, h1) = bind_ok _ _ w h in absurd (ground (arith, (pure_ok _ u h1).0))

  decide_read_ok :
      (candidate : Candidate) (primary : MemoryRecord) (rows : List MemoryRecord)
      (sources : List String) (w : World) {m : Memory} {v : World}
      → decide_read env outside chain candidate primary rows sources w ≡ (ok (some m), v)
      → (m.content ≡ candidate.content)
        × (m.memory_id ≡ primary.memory_id)
        × (m.derived_from ≡ sources)
        × AllowsAll env chain read_memory w sources (memory_ids rows) true env.no_args no_context
  unfolding decide_read
  decide_read_ok candidate primary rows sources w {m} h =
      let (d, u, e, h1) = bind_ok _ _ w h in
      let (t, u2, e2, h2) = bind_ok _ _ u h1 in
      let (same, stay) = pure_ok _ u2 h2 in
      elim (Bool-cases (is_allow d.outcome)) [
        | inr denied ↦ absurd (ground arith)
        | inl allows ↦
            let both =
              decide_all-allow_iff env chain read_memory w sources (some (memory_ids rows))
                (some primary.memory_id) none none {d = d} (ap (λ r. r.0) e) in
            (ground arith, ground arith, ground arith, both.0 (ground arith))
      ]

  admit_permitted_ok :
      (candidate : Candidate) (primary : MemoryRecord) (rows : List MemoryRecord)
      (sources : List String) (w : World) {m : Memory} {v : World}
      → admit_permitted env outside chain candidate primary rows sources w ≡ (ok (some m), v)
      → ((is_empty sources && not (written_for_all chain.subject rows)) ≡ false)
        × (decide_read env outside chain candidate primary rows sources w ≡ (ok (some m), v))
  unfolding admit_permitted
  admit_permitted_ok candidate primary rows sources w h =
      elim (Bool-cases (is_empty sources && not (written_for_all chain.subject rows))) [
        | inl refused ↦ absurd (refuse_read_none _ _ w (rw refused at h))
        | inr opened ↦ (opened, rw opened at h)
      ]

  vouch :
      (candidate : Candidate) (found : List (Option MemoryRecord)) (primary : MemoryRecord)
      (others : List MemoryRecord) (sources refused : List String) (w : World) (m : Memory)
      (u : World)
      → found ≡ map (row_for env outside w) candidate.backend_refs
      → known_rows found ≡ some (primary ∷ others)
      → All (Sourced env outside w sources) (primary ∷ others)
      → refused_resources permits Kind.read (memory_ids (primary ∷ others) ++ sources) ≡ ok refused
      → is_empty refused ≡ true
      → u ≡ w
      → (is_empty sources && not (written_for_all chain.subject (primary ∷ others))) ≡ false
      → m.content ≡ candidate.content
      → m.memory_id ≡ primary.memory_id
      → m.derived_from ≡ sources
      → AllowsAll env chain read_memory u sources
          (memory_ids (primary ∷ others))
          true
          env.no_args
          no_context
      → Vouched w candidate m
  vouch candidate found primary others sources refused w m u known e sourced same all_permitted
        at_start opened content same_id derived allowed =
      let ids = memory_ids (primary ∷ others) in
      record {
        content = content;
        primary = primary;
        others = others;
        same_id = same_id;
        ledger = sym known ∙ known_rows-some found e;
        sourced =
            subst (λ s. All (Sourced env outside w s) (primary ∷ others)) (sym derived) sourced;
        permitted =
            subst (λ s. refused_resources permits Kind.read (ids ++ s) ≡ ok []) (sym derived)
              (same ∙ ap (λ r. ok r) (is_empty_nil refused all_permitted));
        owned = λ none_left. ground (arith, ap is_empty (sym derived ∙ none_left));
        allowed =
            subst (λ s. AllowsAll env chain read_memory w s ids true env.no_args no_context)
              (sym derived)
              (subst
                (λ x. AllowsAll env chain read_memory x sources ids true env.no_args no_context)
                at_start allowed);
      }

  admit_rows_ok :
      (candidate : Candidate) (found : List (Option MemoryRecord)) (w : World) {m : Memory}
      {v : World}
      → found ≡ map (row_for env outside w) candidate.backend_refs
      → admit_rows env outside chain candidate permits (known_rows found) w ≡ (ok (some m), v)
      → Vouched w candidate m
  unfolding admit_rows
  admit_rows_ok candidate found w {m} known h = elim (Option-cases (known_rows found)) [
    | inl none_known ↦ absurd (refuse_read_none _ _ w (rw none_known at h))
    | inr ([], none_found) ↦ absurd (refuse_read_none _ _ w (rw none_found at h))
    | inr (primary ∷ others, e) ↦
        let rows = primary ∷ others in
        let (sources, u, e1, h1) = bind_ok (sources_of env outside rows) _ w (rw e at h) in
        let (refused, u2, e2, h2) = bind_ok _ _ u h1 in
        let (sourced, stay) = sources_of_ok env outside rows w e1 in
        let (same, stay2) = lift_ok _ u e2 in
        elim (Bool-cases (is_empty refused)) [
          | inr some_refused ↦ absurd (refuse_read_none _ _ u2 (rw some_refused at h2))
          | inl all_permitted ↦
              let (opened, h3) =
                admit_permitted_ok candidate primary rows sources u2 (rw all_permitted at h2) in
              let (content, same_id, derived, allowed) =
                decide_read_ok candidate primary rows sources u2 h3 in
              vouch candidate found primary others sources refused w m u2 known e sourced same
                all_permitted (stay2 ∙ stay) opened content same_id derived allowed
        ]
  ]

  pub admit_ok :
      (candidate : Candidate) (w : World) {m : Memory} {v : World}
      → admit env outside chain candidate permits w ≡ (ok (some m), v)
      → Vouched w candidate m
  unfolding admit admit_unguarded
  admit_ok candidate w {m} {v} h =
      settle (admit_unguarded env outside chain candidate permits w) refl h
    where
      settle :
          (r : Result (Option Memory) × World)
          → admit_unguarded env outside chain candidate permits w ≡ r
          → on_hoc_error (λ e. refuse_read env chain (first_ref candidate.backend_refs) e.reason) r
            ≡ (ok (some m), v)
          → Vouched w candidate m
      settle (err other, u) e k = absurd (ground arith)
      settle (err (hoc x), u) e k = absurd (refuse_read_none _ _ u k)
      settle (ok o, u) e k =
          let (found, u1, e1, h1) =
            bind_ok (gather env outside candidate.backend_refs) _ w (e ∙ k) in
          let (known, stay) = gather_ok env outside candidate.backend_refs w e1 in
          admit_rows_ok candidate found w known (rw stay at h1)
