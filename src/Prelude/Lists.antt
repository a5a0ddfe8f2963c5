-- ===== src/Prelude/Lists.antt =====
-- Lists measured by native numbers, Boolean quantifiers, and prefixes of texts as code points.
use Prim.Native.Nat.{ℕ, zero, suc, ◌+◌, ◌≤◌}
use mathlib.Core.Path.{◌≡◌, refl, ap}
use mathlib.Core.Logic.{◌⊎◌, inl, inr}
use mathlib.Core.Bool.{Bool, true, false, ◌&&◌, ◌||◌}
use mathlib.Core.List.{List, [], ◌∷◌, ◌++◌}
use native.Mathlib.Omega.{arith}
use headofcontext.Prelude.Tests.{nat_eq, if◌then◌else◌}

module _ {ℓ} {A : Type ℓ} where
  abbrev pub length : List A → ℕ
  length [] = 0
  length (x ∷ xs) = suc (length xs)

  abbrev pub is_empty : List A → Bool
  is_empty [] = true
  is_empty (x ∷ xs) = false

  -- Python's `any` and `all` over a generator.
  abbrev pub any : (A → Bool) → List A → Bool
  any p [] = false
  any p (x ∷ xs) = p x || any p xs

  abbrev pub all : (A → Bool) → List A → Bool
  all p [] = true
  all p (x ∷ xs) = p x && all p xs

  abbrev pub filter : (A → Bool) → List A → List A
  filter p [] = []
  filter p (x ∷ xs) = let rest = filter p xs in if p x then x ∷ rest else rest

  abbrev pub take : ℕ → List A → List A
  take zero xs = []
  take (suc n) [] = []
  take (suc n) (x ∷ xs) = x ∷ take n xs

  abbrev pub drop : ℕ → List A → List A
  drop zero xs = xs
  drop (suc n) [] = []
  drop (suc n) (x ∷ xs) = drop n xs

  -- `l[:-1]`
  abbrev pub drop_last : List A → List A
  drop_last [] = []
  drop_last (x ∷ []) = []
  drop_last (x ∷ y ∷ xs) = x ∷ drop_last (y ∷ xs)

  pub is_empty_nil : (xs : List A) → is_empty xs ≡ true → xs ≡ []
  is_empty_nil [] h = refl
  is_empty_nil (x ∷ xs) h = absurd (ground arith)

  pub length-append : (xs ys : List A) → length (xs ++ ys) ≡ length xs + length ys
  length-append [] ys = omega arith
  length-append (x ∷ xs) ys = omega (arith, length-append xs ys)

  pub length-drop-le : (n : ℕ) (xs : List A) → length (drop n xs) ≤ length xs
  length-drop-le zero xs = omega arith
  length-drop-le (suc n) [] = omega arith
  length-drop-le (suc n) (x ∷ xs) = omega (arith, length-drop-le n xs)

  pub drop_last-concat : (xs : List A) (x : A) → drop_last (xs ++ x ∷ []) ≡ xs
  drop_last-concat [] x = refl
  drop_last-concat (y ∷ []) x = refl
  drop_last-concat (y ∷ z ∷ xs) x = ap (◌∷◌ y) (drop_last-concat (z ∷ xs) x)

-- `s.startswith(p)` on code points: the prefix first.
abbrev pub is_prefix : List ℕ → List ℕ → Bool
is_prefix [] s = true
is_prefix (c ∷ p) [] = false
is_prefix (c ∷ p) (d ∷ s) = nat_eq c d && is_prefix p s

-- `s.endswith(c)` for one character.
abbrev pub ends_with : ℕ → List ℕ → Bool
ends_with c [] = false
ends_with c (d ∷ []) = nat_eq c d
ends_with c (d ∷ e ∷ s) = ends_with c (e ∷ s)

pub is_prefix_refl : (p : List ℕ) → is_prefix p p ≡ true
is_prefix_refl [] = refl
is_prefix_refl (c ∷ p) = ground (arith, is_prefix_refl p)

pub is_prefix_append : (p s : List ℕ) → is_prefix p (p ++ s) ≡ true
is_prefix_append [] s = refl
is_prefix_append (c ∷ p) s = ground (arith, is_prefix_append p s)

pub is_prefix_trans :
    (p q s : List ℕ) → is_prefix p q ≡ true → is_prefix q s ≡ true → is_prefix p s ≡ true
is_prefix_trans [] q s h k = refl
is_prefix_trans (c ∷ p) [] s h k = absurd (ground arith)
is_prefix_trans (c ∷ p) (d ∷ q) [] h k = ground arith
is_prefix_trans (c ∷ p) (d ∷ q) (e ∷ s) h k = ground (arith, is_prefix_trans p q s)

-- A list that ends with `c` is its front and `c`.
pub ends_with-split : (c : ℕ) (s : List ℕ) → ends_with c s ≡ true → s ≡ drop_last s ++ c ∷ []
ends_with-split c [] h = ground arith
ends_with-split c (d ∷ []) h = ground arith
ends_with-split c (d ∷ e ∷ s) h = ap (◌∷◌ d) (ends_with-split c (e ∷ s) h)

-- A prefix of `q` and one more character stops within `q`, or is the whole of it.
pub is_prefix-concat :
    (p q : List ℕ) (c : ℕ)
    → is_prefix p (q ++ c ∷ []) ≡ true
    → (is_prefix p q ≡ true) ⊎ (p ≡ q ++ c ∷ [])
is_prefix-concat [] q c h = inl refl
is_prefix-concat (d ∷ []) [] c h = inr (ground arith)
is_prefix-concat (d ∷ e ∷ p) [] c h = absurd (ground arith)
is_prefix-concat (d ∷ p) (e ∷ q) c h = elim (is_prefix-concat p q c (ground arith)) [
  | inl within ↦ inl (ground arith)
  | inr whole ↦ inr (ground arith)
]

pub ends_with_concat : (s : List ℕ) (c : ℕ) → ends_with c (s ++ c ∷ []) ≡ true
ends_with_concat [] c = ground arith
ends_with_concat (d ∷ []) c = ground arith
ends_with_concat (d ∷ e ∷ s) c = ends_with_concat (e ∷ s) c

pub is_prefix-drop_last : (s : List ℕ) → is_prefix (drop_last s) s ≡ true
is_prefix-drop_last [] = refl
is_prefix-drop_last (c ∷ []) = refl
is_prefix-drop_last (c ∷ d ∷ s) = ground (arith, is_prefix-drop_last (d ∷ s))
