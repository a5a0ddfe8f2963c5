-- ===== src/Core/Decider/Each/Slices.antt =====
-- The slices of `decide_each` in core/decider.py, and the lists it pairs up.
use headofcontext.Prelude.{
  ◌≡◌, ◌≤◌, ℕ, zero, suc, String, Option, none, some, List, [], ◌∷◌, length, arith, All, Member,
  here, there,
}
use headofcontext.Core.Decider.{batch_limit}
use headofcontext.Core.Decider.Each.{prepend, slices}

-- The entry of a list at a place.
abbrev pub get_elem? {ℓ} : {A : Type ℓ} → List A → ℕ → Option A
get_elem? [] n = none
get_elem? (x ∷ xs) zero = some x
get_elem? (x ∷ xs) (suc n) = get_elem? xs n

abbrev pub zip {ℓ} : {A B : Type ℓ} → List A → List B → List (A × B)
zip [] ys = []
zip (x ∷ xs) [] = []
zip (x ∷ xs) (y ∷ ys) = (x, y) ∷ zip xs ys

prepend-All {ℓ κ} :
    {A : Type ℓ} (P : A → Type κ) (x : A) (chunks : List (List A))
    → P x
    → All (All P) chunks
    → All (All P) (prepend x chunks)
prepend-All P x [] p h = ((p, tt), tt)
prepend-All P x (c ∷ cs) p h = ((p, h.0), h.1)

-- The slices of a list hold its entries.
pub slices-All {ℓ κ} :
    {A : Type ℓ} (P : A → Type κ) (room : ℕ) (xs : List A) → All P xs → All (All P) (slices room xs)
unfolding slices
slices-All P room [] h = tt
slices-All P zero (x ∷ xs) h = prepend-All P x _ h.0 (slices-All P batch_limit xs h.1)
slices-All P (suc zero) (x ∷ xs) h = ((h.0, tt), slices-All P batch_limit xs h.1)
slices-All P (suc (suc room)) (x ∷ xs) h = prepend-All P x _ h.0 (slices-All P (suc room) xs h.1)

-- The slices, where the first may hold so much.
abbrev Fits {ℓ} : {A : Type ℓ} → ℕ → List (List A) → Type 0
Fits room [] = Unit
Fits room (c ∷ cs) = (length c ≤ room) × All (λ d. length d ≤ 50) cs

prepend-Fits {ℓ} :
    {A : Type ℓ} (x : A) (room : ℕ) (chunks : List (List A))
    → Fits room chunks
    → Fits (suc room) (prepend x chunks)
prepend-Fits x room [] h = (omega arith, tt)
prepend-Fits x room (c ∷ cs) h = (omega (arith, h.0), h.1)

Fits-size {ℓ} :
    {A : Type ℓ} (chunks : List (List A)) → Fits 50 chunks → All (λ d. length d ≤ 50) chunks
Fits-size [] h = tt
Fits-size (c ∷ cs) h = h

slices-Fits {ℓ} : {A : Type ℓ} (room : ℕ) (xs : List A) → Fits (suc room) (slices (suc room) xs)
unfolding slices
slices-Fits room [] = tt
slices-Fits zero (x ∷ xs) = (omega arith, Fits-size (slices batch_limit xs) (slices-Fits 49 xs))
slices-Fits (suc room) (x ∷ xs) =
    prepend-Fits x (suc room) (slices (suc room) xs) (slices-Fits room xs)

-- No slice holds more than fifty.
pub slices-size {ℓ} : {A : Type ℓ} (xs : List A) → All (λ d. length d ≤ 50) (slices batch_limit xs)
slices-size xs = Fits-size (slices batch_limit xs) (slices-Fits 49 xs)

pub get_elem?-Member :
    (xs : List String) (n : ℕ) (s : String) → get_elem? xs n ≡ some s → Member s xs
get_elem?-Member [] n s h = absurd (ground arith)
get_elem?-Member (x ∷ xs) zero s h = here (ground arith)
get_elem?-Member (x ∷ xs) (suc n) s h = there (get_elem?-Member xs n s h)
