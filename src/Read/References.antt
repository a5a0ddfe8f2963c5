-- ===== src/Read/References.antt =====
-- `_reference` in read/filter.py: which item has which reference.
use headofcontext.Prelude.{
  ◌≡◌, refl, inl, inr, ap, String, true, Option, none, some, List, [], ◌∷◌, map, arith, All, Member,
  here, there, Bool-cases, Option-cases,
}
use headofcontext.Core.Errors.{Result, ok, err}
use headofcontext.Core.Refs.{is_ref, validate_ref}
use headofcontext.Read.{reference, reference_of, present}

-- The text that `id_of` gives for the item is a well-formed document.
abbrev pub Refers : {Item : Type 0} → (Item → Result (Option String)) → Item → String → Type 0
Refers extract item r = (extract item ≡ ok (some r)) × (is_ref r "document" ≡ true)

reference_of-some :
    (answer : Result (Option String)) (r : String)
    → reference_of answer ≡ some r
    → (answer ≡ ok (some r)) × (is_ref r "document" ≡ true)
unfolding validate_ref
reference_of-some (err e) r h = absurd (ground arith)
reference_of-some (ok none) r h = absurd (ground arith)
reference_of-some (ok (some raw)) r h = elim (Bool-cases (is_ref raw "document")) [
  | inr bad ↦ absurd (ground arith)
  | inl good ↦
      let same : raw ≡ r = ground arith in (ap (λ s. ok (some s)) same, grind (arith, good, same))
]

reference_of-none :
    (answer : Result (Option String)) (r : String)
    → reference_of answer ≡ none
    → answer ≡ ok (some r)
    → ¬ (is_ref r "document" ≡ true)
unfolding validate_ref
reference_of-none (err e) r h said good = absurd (ground arith)
reference_of-none (ok none) r h said good = absurd (ground arith)
reference_of-none (ok (some raw)) r h said good =
    let same : raw ≡ r = ground arith in
    let known : is_ref raw "document" ≡ true = grind (arith, good, same) in ground arith

module _ {Item : Type 0} (extract : Item → Result (Option String)) where
  pub reference-Refers :
      (item : Item) (r : String) → reference extract item ≡ some r → Refers extract item r
  unfolding reference
  reference-Refers item r h = reference_of-some (extract item) r h

  pub reference-none :
      (item : Item) (r : String) → reference extract item ≡ none → ¬ Refers extract item r
  unfolding reference
  reference-none item r h (said, good) = reference_of-none (extract item) r h said good

  -- The text is the reference of one of the items.
  abbrev pub IsReference : List Item → String → Type 0
  IsReference items s = (item : Item) × Member item items × Refers extract item s

  present-among :
      (all items : List Item)
      → ((item : Item) → Member item items → Member item all)
      → All (IsReference all) (present (map (reference extract) items))
  present-among all [] within = tt
  present-among all (item ∷ rest) within =
      let later = present-among all rest (λ i m. within i (there m)) in
      elim (Option-cases (reference extract item)) [
        | inl invalid ↦ rw invalid later
        | inr (r, valid) ↦
            rw valid ((item, within item (here refl), reference-Refers item r valid), later)
      ]

  pub present-IsReference :
      (items : List Item) → All (IsReference items) (present (map (reference extract) items))
  present-IsReference items = present-among items items (λ i m. m)
