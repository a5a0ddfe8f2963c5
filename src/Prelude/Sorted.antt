-- ===== src/Prelude/Sorted.antt =====
-- `sorted(set(...))` of texts, ordered by code points.
use headofcontext.Prelude.{
  refl, sym, ℕ, String, Bool, true, false, List, [], ◌∷◌, ◌==◌, codes, ltb, nat_eq, subst, All,
  Member, here, there, eq_iff, Bool-cases, inl, inr, if◌then◌else◌,
}

abbrev pub codes_lt : List ℕ → List ℕ → Bool
codes_lt s [] = false
codes_lt [] (d ∷ t) = true
codes_lt (c ∷ s) (d ∷ t) =
    let later = codes_lt s t in if ltb c d then true else if nat_eq c d then later else false

unfoldable pub insert_text : String → List String → List String
insert_text s [] = s ∷ []
insert_text s (t ∷ rest) =
    let later = insert_text s rest in
    if s == t then t ∷ rest else if codes_lt (codes s) (codes t) then s ∷ t ∷ rest else t ∷ later

unfoldable pub sorted_set : List String → List String
unfolding insert_text
sorted_set [] = []
sorted_set (s ∷ rest) = insert_text s (sorted_set rest)

insert_text_here : (s : String) (l : List String) → Member s (insert_text s l)
unfolding insert_text
insert_text_here s [] = here refl
insert_text_here s (t ∷ rest) = elim (Bool-cases (s == t)) [
  | inl same ↦ rw same (here (sym ((eq_iff s t).0 same)))
  | inr differ ↦ elim (Bool-cases (codes_lt (codes s) (codes t))) [
    | inl less ↦ rw (differ, less) (here refl)
    | inr more ↦ rw (differ, more) (there (insert_text_here s rest))
  ]
]

insert_text_there :
    (s : String) {u : String} (l : List String) → Member u l → Member u (insert_text s l)
unfolding insert_text
insert_text_there s [] m = elim m [ ]
insert_text_there s (t ∷ rest) m = elim (Bool-cases (s == t)) [
  | inl same ↦ rw same m
  | inr differ ↦ elim (Bool-cases (codes_lt (codes s) (codes t))) [
    | inl less ↦ rw (differ, less) (there m)
    | inr more ↦
        rw (differ, more)
          (elim m [ here e ↦ here e | there n ↦ there (insert_text_there s rest n) ])
  ]
]

-- Sorting loses no text.
pub sorted_set_complete : {u : String} (l : List String) → Member u l → Member u (sorted_set l)
unfolding sorted_set
sorted_set_complete [] m = elim m [ ]
sorted_set_complete {u} (s ∷ rest) (here e) =
    subst (λ x. Member x (sorted_set (s ∷ rest))) e (insert_text_here s (sorted_set rest))
sorted_set_complete (s ∷ rest) (there m) =
    insert_text_there s (sorted_set rest) (sorted_set_complete rest m)

insert_text-All {κ} :
    (P : String → Type κ) (s : String) (l : List String) → P s → All P l → All P (insert_text s l)
unfolding insert_text
insert_text-All P s [] p h = (p, tt)
insert_text-All P s (t ∷ rest) p h = elim (Bool-cases (s == t)) [
  | inl same ↦ rw same h
  | inr differ ↦ elim (Bool-cases (codes_lt (codes s) (codes t))) [
    | inl less ↦ rw (differ, less) (p, h)
    | inr more ↦ rw (differ, more) (h.0, insert_text-All P s rest p h.1)
  ]
]

-- Sorting adds no text.
pub sorted_set-All {κ} : (P : String → Type κ) (l : List String) → All P l → All P (sorted_set l)
unfolding sorted_set
sorted_set-All P [] h = tt
sorted_set-All P (s ∷ rest) h =
    insert_text-All P s (sorted_set rest) h.0 (sorted_set-All P rest h.1)
