-- ===== src/Memory/Read/Recalled.antt =====
-- What recall returns: memories that were vouched for, and no more than the limit.
use headofcontext.Prelude.{
  ◌≡◌, refl, sym, ◌∙◌, ap, subst, inl, inr, ◌⊎◌, ◌≤◌, ◌+◌, ℕ, zero, suc, String, Option, none, some,
  List, [], ◌∷◌, length, length-append, leb, arith, All, All-append, Member, here, there,
  Bool-cases,
}
use headofcontext.Prelude.Int.{ℤ, pos, negsuc}
use headofcontext.Core.Errors.{Exception, Result, ok, err, Result-cases}
use headofcontext.Core.Chain.{PrincipalChain}
use headofcontext.Memory.Record.{Memory, Candidate}
use headofcontext.Memory.Parts.{ResourcePermits, MemoryEnv}
use headofcontext.Memory.{clamp}
use headofcontext.Memory.Read.{admit, append_some, collect, recall_found, recall}
use headofcontext.Memory.Read.Stores.{admit-KeepsStores}
use headofcontext.World.{World, Env}
use headofcontext.World.Logged.{SameStores, SameStores-refl, SameStores-trans}
use headofcontext.World.Returns.{bind_ok, pure_ok, gets_ok}
use headofcontext.Memory.Read.Vouched.{Vouched, admit_ok}

clamp-le : (limit : ℤ) → (1 ≤ clamp limit) × (clamp limit ≤ 50)
unfolding clamp
clamp-le (pos n) = ground arith
clamp-le (negsuc n) = ground arith

-- The number that a limit allows: a limit that is not positive still allows one.
abbrev pub allowance : ℤ → ℕ
allowance (pos zero) = 1
allowance (pos (suc n)) = suc n
allowance (negsuc n) = 1

clamp-le_allowance : (limit : ℤ) → clamp limit ≤ allowance limit
unfolding clamp
clamp-le_allowance (pos zero) = ground arith
clamp-le_allowance (pos (suc n)) = ground arith
clamp-le_allowance (negsuc n) = ground arith

length-append_some :
    (kept : List Memory) (memory : Option Memory)
    → length (append_some kept memory) ≤ length kept + 1
length-append_some kept none = omega arith
length-append_some kept (some m) = omega (arith, length-append kept (m ∷ []))

module _ {Args : Type 0} (env : Env Args) (outside : MemoryEnv Args) (chain : PrincipalChain)
    (permits : Option ResourcePermits) where
  -- A memory that one of the candidates gave, in a state with the stores of `w`.
  abbrev pub FromCandidate : World → List Candidate → Memory → Type 0
  FromCandidate w candidates m =
      (candidate : Candidate) × Member candidate candidates
      × ((u : World) × SameStores w u × Vouched env outside chain permits u candidate m)

  append_some-All :
      (w : World) (candidates : List Candidate) (kept : List Memory) (memory : Option Memory)
      → All (FromCandidate w candidates) kept
      → ((m : Memory) → memory ≡ some m → FromCandidate w candidates m)
      → All (FromCandidate w candidates) (append_some kept memory)
  append_some-All w candidates kept none known new = known
  append_some-All w candidates kept (some m) known new =
      All-append (FromCandidate w candidates) kept (m ∷ []) known (new m refl, tt)

  collect_ok :
      (start : World) (all_found : List Candidate) (limit : ℕ) (candidates : List Candidate)
      (kept : List Memory) (w : World) {memories : List Memory} {v : World}
      → ((c : Candidate) → Member c candidates → Member c all_found)
      → SameStores start w
      → All (FromCandidate start all_found) kept
      → collect env outside chain permits limit candidates kept w ≡ (ok memories, v)
      → All (FromCandidate start all_found) memories
  unfolding collect
  collect_ok start all_found limit [] kept w within same known h =
      subst (All (FromCandidate start all_found)) (sym (pure_ok kept w h).0) known
  collect_ok start all_found limit (c ∷ rest) kept w {memories} {v} within same known h =
      let (memory, u, e, h1) = bind_ok (admit env outside chain c permits) _ w h in
      let now_kept = append_some kept memory in
      let known' = append_some-All start all_found kept memory known (λ m is. (
        c,
        within c (here refl),
        (w, same, admit_ok env outside chain permits c w (e ∙ ap (λ o. (ok o, u)) is)),
      )) in
      let stays : SameStores w u =
        subst (SameStores w) (ap (λ r. r.1) e)
          ((admit-KeepsStores env outside chain c permits).at w) in
      elim (Bool-cases (leb limit (length now_kept))) [
        | inl full ↦
            subst (All (FromCandidate start all_found)) (sym (pure_ok now_kept u (rw full at h1)).0)
              known'
        | inr more ↦
            collect_ok start all_found limit rest now_kept u (λ x m. within x (there m))
              (SameStores-trans start w u same stays) known' (rw more at h1)
      ]

  -- A memory that recall returns was made of a candidate that the backend found, in a state whose
  -- stores are those at the start: each of its references has a row in the ledger, and there is one;
  -- no source of a row, in the ledger or in the tuple store, is missing from the memory's; the
  -- token's checks refuse none of the rows nor the sources; without a source every row was written
  -- for the chain's subject; the actor's scope covers every row, and the engine and the policy
  -- allow the subject every source.
  pub recall_vouched :
      (query : String) (limit : ℤ) (w : World) {memories : List Memory} {v : World}
      → recall env outside chain query limit permits w ≡ (ok memories, v)
      → ((candidates : List Candidate) × (outside.search w query outside.namespace (clamp limit)
            ≡ ok candidates)
          × All (FromCandidate w candidates) memories)
        ⊎ (memories ≡ [])
  unfolding recall recall_found
  recall_vouched query limit w {memories} {v} h =
      let (answer, u, e, h1) = bind_ok _ _ w h in
      let (same, stay) = gets_ok _ w e in
      elim (Result-cases answer) [
        | inr (x, failed) ↦ inr (recall_failed u x (rw failed at h1))
        | inl (candidates, found) ↦ inl (
          candidates,
          sym same ∙ found,
          collect_ok w candidates (clamp limit) candidates [] u (λ c m. m)
              (subst (SameStores w) (sym stay) (SameStores-refl w)) tt
              (recall_searched u candidates (rw found at h1)),
        )
      ]
    where
      recall_failed :
          (u : World) (x : Exception)
          → recall_found env outside chain permits (clamp limit) (err x) u ≡ (ok memories, v)
          → memories ≡ []
      recall_failed u x k = let (t, u2, e2, k2) = bind_ok _ _ u k in (pure_ok [] u2 k2).0

      recall_searched :
          (u : World) (candidates : List Candidate)
          → recall_found env outside chain permits (clamp limit) (ok candidates) u
            ≡ (ok memories, v)
          → collect env outside chain permits (clamp limit) candidates [] u ≡ (ok memories, v)
      recall_searched u candidates k = k

  collect-length :
      (limit : ℕ) (candidates : List Candidate) (kept : List Memory) (w : World)
      {memories : List Memory} {v : World}
      → length kept + 1 ≤ limit
      → collect env outside chain permits limit candidates kept w ≡ (ok memories, v)
      → length memories ≤ limit
  unfolding collect
  collect-length limit [] kept w room h =
      subst (λ l. length l ≤ limit) (sym (pure_ok kept w h).0) (omega arith)
  collect-length limit (c ∷ rest) kept w {memories} room h =
      let (memory, u, e, h1) = bind_ok (admit env outside chain c permits) _ w h in
      let grown = length-append_some kept memory in
      elim (Bool-cases (leb limit (length (append_some kept memory)))) [
        | inl full ↦
            subst (λ l. length l ≤ limit) (sym (pure_ok _ u (rw full at h1)).0) (omega arith)
        | inr more ↦
            collect-length limit rest (append_some kept memory) u (ground arith) (rw more at h1)
      ]

  -- However many candidates the backend finds, recall returns at most fifty memories, at most the
  -- limit where the limit is positive, and at most one where it is zero or negative.
  pub recall-length :
      (query : String) (limit : ℤ) (w : World) {memories : List Memory} {v : World}
      → recall env outside chain query limit permits w ≡ (ok memories, v)
      → (length memories ≤ allowance limit) × (length memories ≤ 50)
  unfolding recall recall_found
  recall-length query limit w {memories} h =
      let (answer, u, e, h1) = bind_ok _ _ w h in
      let (low, high) = clamp-le limit in
      let least = clamp-le_allowance limit in
      let within = settle answer u h1 in (omega arith, omega arith)
    where
      settle :
          (answer : Result (List Candidate)) (u : World) {v : World}
          → recall_found env outside chain permits (clamp limit) answer u ≡ (ok memories, v)
          → length memories ≤ clamp limit
      settle (err x) u k =
          let (t, u2, e2, k2) = bind_ok _ _ u k in
          subst (λ l. length l ≤ clamp limit) (sym (pure_ok [] u2 k2).0) (omega arith)
      settle (ok candidates) u k =
          collect-length (clamp limit) candidates [] u (omega (arith, (clamp-le limit).0)) k
