-- ===== src/Prelude/Predicates.antt =====
-- Predicates over lists, by recursion, and the Boolean quantifiers that decide them.
use mathlib.Core.Path.{◌≡◌, refl, ap, subst}
use mathlib.Core.Logic.{inl, inr}
use mathlib.Core.Bool.{Bool, true}
use mathlib.Core.List.{List, [], ◌∷◌, ◌++◌, map}
use native.Mathlib.Omega.{arith}
use headofcontext.Prelude.Lists.{any, all, filter}
use headofcontext.Prelude.Tests.{Bool-cases}

module _ {ℓ κ} {A : Type ℓ} (P : A → Type κ) where
  abbrev pub All : List A → Type κ
  All [] = Unit
  All (x ∷ xs) = P x × All xs

  pub All-append : (xs ys : List A) → All xs → All ys → All (xs ++ ys)
  All-append [] ys hx hy = hy
  All-append (x ∷ xs) ys hx hy = (hx.0, All-append xs ys hx.1 hy)

-- A place of a list that holds a value.
pub data Member {ℓ} {A : Type ℓ} (a : A) : List A → Type ℓ where
  here : {x : A} {xs : List A} → x ≡ a → Member a (x ∷ xs)
  there : {x : A} {xs : List A} → Member a xs → Member a (x ∷ xs)

module _ {ℓ} {A : Type ℓ} (p : A → Bool) where
  pub all-Member : {a : A} {xs : List A} → all p xs ≡ true → Member a xs → p a ≡ true
  all-Member h (here e) = ground (arith, ap p e)
  all-Member h (there m) = all-Member (ground arith) m

  pub all_of_Member : (xs : List A) → ((a : A) → Member a xs → p a ≡ true) → all p xs ≡ true
  all_of_Member [] h = refl
  all_of_Member (x ∷ xs) h =
      ground (arith, h x (here refl), all_of_Member xs (λ a m. h a (there m)))

  pub any-Member : (xs : List A) → any p xs ≡ true → (a : A) × Member a xs × (p a ≡ true)
  any-Member [] h = absurd (ground arith)
  any-Member (x ∷ xs) h = elim (Bool-cases (p x)) [
    | inl e ↦ (x, here refl, e)
    | inr e ↦ let r = any-Member xs (ground arith) in (r.0, there r.1, r.2)
  ]

  pub any_of_Member : {a : A} {xs : List A} → Member a xs → p a ≡ true → any p xs ≡ true
  any_of_Member (here e) h = ground (arith, ap p e)
  any_of_Member (there m) h = ground (arith, any_of_Member m h)

module _ {ℓ κ} {A : Type ℓ} (P : A → Type κ) where
  pub All-Member : {a : A} {xs : List A} → All P xs → Member a xs → P a
  All-Member h (here e) = subst P e h.0
  All-Member h (there m) = All-Member h.1 m

module _ {ℓ} {A : Type ℓ} where
  pub Member-append_left : {a : A} (xs ys : List A) → Member a xs → Member a (xs ++ ys)
  Member-append_left [] ys m = elim m [ ]
  Member-append_left (x ∷ xs) ys (here e) = here e
  Member-append_left (x ∷ xs) ys (there m) = there (Member-append_left xs ys m)

  pub Member-append_right : {a : A} (xs ys : List A) → Member a ys → Member a (xs ++ ys)
  Member-append_right [] ys m = m
  Member-append_right (x ∷ xs) ys m = there (Member-append_right xs ys m)

  pub Member-map {κ} :
      {B : Type κ} (f : A → B) {a : A} (xs : List A) → Member a xs → Member (f a) (map f xs)
  Member-map f [] m = elim m [ ]
  Member-map f (x ∷ xs) (here e) = here (ap f e)
  Member-map f (x ∷ xs) (there m) = there (Member-map f xs m)

  pub All-imp {κ} : {P Q : A → Type κ} (xs : List A) → ((a : A) → P a → Q a) → All P xs → All Q xs
  All-imp [] f h = tt
  All-imp (x ∷ xs) f h = (f x h.0, All-imp xs f h.1)

  pub All-of_map {κ} :
      {B : Type κ} (P : B → Type κ) (f : A → B) (xs : List A)
      → All P (map f xs)
      → All (λ x. P (f x)) xs
  All-of_map P f [] h = tt
  All-of_map P f (x ∷ xs) h = (h.0, All-of_map P f xs h.1)

  -- Every value that passes a test, while it stands in the list.
  pub filter-All {κ} :
      (P : A → Type κ) (p : A → Bool) (xs : List A)
      → ((a : A) → Member a xs → p a ≡ true → P a)
      → All P (filter p xs)
  filter-All P p [] h = tt
  filter-All P p (x ∷ xs) h = elim (Bool-cases (p x)) [
    | inl passes ↦ rw passes (h x (here refl) passes, filter-All P p xs (λ a m. h a (there m)))
    | inr fails ↦ rw fails (filter-All P p xs (λ a m. h a (there m)))
  ]
