-- ===== src/Read/Permitted.antt =====
-- The candidates of the filter are references that the token lets pass.
use headofcontext.Prelude.{
  ◌≡◌, refl, ◌∙◌, ap, subst, inl, inr, String, Bool, true, false, Option, none, some, List, [], ◌∷◌,
  Dict, lookup, filter-All, is_empty, is_empty_nil, or_default, arith, All, Member, here, there,
  Bool-cases, eq_iff,
}
use headofcontext.Prelude.Sorted.{sorted_set, sorted_set_complete, sorted_set-All}
use headofcontext.Core.Errors.{ok, Result-cases}
use headofcontext.Core.Capability.{Kind}
use headofcontext.Memory.Parts.{ResourcePermits}
use headofcontext.Read.{is_member, refused_by, token_refusals, is_wanted, candidates_of}

-- The token's checks, if there are any, answered for the reference, among others of the list, and
-- let it pass.
abbrev pub TokenPasses : Option ResourcePermits → List String → String → Type 0
TokenPasses none refs r = Unit
TokenPasses (some permits) refs r =
    (wanted : List String) × (answers : Dict Bool) × Member r wanted
    × All (λ s. Member s refs) wanted
    × (permits Kind.read wanted ≡ ok answers)
    × (or_default (lookup r answers) false ≡ true)

pub All-within : (refs : List String) → All (λ s. Member s refs) refs
All-within refs = grown refs (λ s m. m)
  where
    grown :
        (l : List String) → ((s : String) → Member s l → Member s refs) → All (λ s. Member s refs) l
    grown [] h = tt
    grown (x ∷ xs) h = (h x (here refl), grown xs (λ s m. h s (there m)))

-- The candidates are among the references.
pub candidates_within :
    (refs refused : List String) → All (λ s. Member s refs) (candidates_of refs refused)
unfolding candidates_of
candidates_within refs refused =
    sorted_set-All (λ s. Member s refs) _
      (filter-All (λ s. Member s refs) (is_wanted refused) refs (λ s m i. m))

refused_by_passes :
    (answers : Dict Bool) (wanted : List String) (r : String)
    → Member r wanted
    → is_member r (refused_by answers wanted) ≡ false
    → or_default (lookup r answers) false ≡ true
refused_by_passes answers [] r m h = elim m [ ]
refused_by_passes answers (x ∷ xs) r (here e) h =
    elim (Bool-cases (or_default (lookup x answers) false)) [
      | inl passes ↦ subst (λ y. or_default (lookup y answers) false ≡ true) e passes
      | inr fails ↦ absurd (ground (arith, (eq_iff x r).1 e))
    ]
refused_by_passes answers (x ∷ xs) r (there m) h =
    refused_by_passes answers xs r m (elim (Bool-cases (or_default (lookup x answers) false)) [
      | inl passes ↦ ground arith
      | inr fails ↦ ground arith
    ])

pub token_refusals_passes :
    (permits : Option ResourcePermits) (refs refused : List String)
    → token_refusals permits (sorted_set refs) ≡ ok refused
    → All (TokenPasses permits refs) (candidates_of refs refused)
unfolding token_refusals candidates_of
token_refusals_passes none refs refused h =
    sorted_set-All (TokenPasses none refs) _
      (filter-All (TokenPasses none refs) (is_wanted refused) refs (λ a m w. tt))
token_refusals_passes (some permits) refs refused h =
    sorted_set-All (TokenPasses (some permits) refs) _ (
      filter-All (TokenPasses (some permits) refs) (is_wanted refused) refs
        (λ r m passes. settle r (sorted_set_complete refs m) passes))
  where
    settle :
        (r : String)
        → Member r (sorted_set refs)
        → is_wanted refused r ≡ true
        → TokenPasses (some permits) refs r
    settle r m passes = elim (Bool-cases (is_empty (sorted_set refs))) [
      | inl nothing ↦ elim (subst (Member r) (is_empty_nil (sorted_set refs) nothing) m) [ ]
      | inr some_left ↦ elim (Result-cases (permits Kind.read (sorted_set refs))) [
        | inr (e, failed) ↦ absurd (ground arith)
        | inl (answers, said) ↦
            let same : refused_by answers (sorted_set refs) ≡ refused = ground arith in
            (
              sorted_set refs,
              answers,
              m,
              sorted_set-All (λ s. Member s refs) refs (All-within refs),
              said,
              refused_by_passes answers (sorted_set refs) r m
                  (ap (is_member r) same ∙ ground arith),
            )
      ]
    ]
