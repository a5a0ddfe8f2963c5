-- ===== src/Memory/Sources.antt =====
-- `dict.fromkeys` in memory/service.py: what `dedupe` keeps.
use headofcontext.Prelude.{
  ◌≡◌, sym, ◌↔◌, inl, inr, String, Bool, true, false, not, List, [], ◌∷◌, ◌==◌, filter, Member,
  here, there, eq_iff, eq_refl, Bool-cases, arith, subst,
}
use headofcontext.Memory.{dedupe}

-- No text stands at two places of the list.
abbrev pub NoRepeat : List String → Type 0
NoRepeat [] = Unit
NoRepeat (x ∷ xs) = (¬ Member x xs) × NoRepeat xs

-- What a filter keeps.
Member-filter :
    (p : String → Bool) (s : String) (xs : List String)
    → Member s (filter p xs) ↔ (Member s xs × (p s ≡ true))
Member-filter p s [] = (λ m. elim m [ ], λ m. elim (m.0) [ ])
Member-filter p s (x ∷ xs) =
    let (to, from) = Member-filter p s xs in
    elim (Bool-cases (p x)) [
      | inl keeps ↦ rw keeps (
        λ m. elim m [
          | here e ↦ (here e, subst (λ y. p y ≡ true) e keeps)
          | there n ↦ let (k, q) = to n in (there k, q)
        ],
        λ (m, q). elim m [ here e ↦ here e | there n ↦ there (from (n, q)) ],
      )
      | inr drops ↦ rw drops (
        λ m. let (k, q) = to m in (there k, q),
        λ (m, q). elim m [
          | here e ↦ absurd (grind (arith, subst (λ y. p y ≡ false) e drops))
          | there n ↦ from (n, q)
        ],
      )
    ]

NoRepeat-filter : (p : String → Bool) (xs : List String) → NoRepeat xs → NoRepeat (filter p xs)
NoRepeat-filter p [] h = tt
NoRepeat-filter p (x ∷ xs) h = elim (Bool-cases (p x)) [
  | inl keeps ↦ rw keeps (λ m. h.0 ((Member-filter p x xs).0 m).0, NoRepeat-filter p xs h.1)
  | inr drops ↦ rw drops (NoRepeat-filter p xs h.1)
]

-- The same texts, each once.
pub dedupe-NoRepeat : (items : List String) → NoRepeat (dedupe items)
unfolding dedupe
dedupe-NoRepeat [] = tt
dedupe-NoRepeat (item ∷ rest) =
    let other : String → Bool = λ r. not (r == item) in
    (
      λ m.
          let q = ((Member-filter other item (dedupe rest)).0 m).1 in
          absurd (ground (arith, eq_refl item)),
      NoRepeat-filter other (dedupe rest) (dedupe-NoRepeat rest),
    )

pub Member-dedupe : (items : List String) (s : String) → Member s items ↔ Member s (dedupe items)
unfolding dedupe
Member-dedupe [] s = (λ m. m, λ m. m)
Member-dedupe (item ∷ rest) s =
    let other : String → Bool = λ r. not (r == item) in
    let (to, from) = Member-dedupe rest s in
    let (out, back) = Member-filter other s (dedupe rest) in
    (
      λ m. elim (Bool-cases (s == item)) [
        | inl same ↦ here (sym ((eq_iff s item).0 same))
        | inr differ ↦ elim m [ here e ↦ here e | there n ↦ there (back (to n, ground arith)) ]
      ],
      λ m. elim m [ here e ↦ here e | there n ↦ there (from (out n).0) ],
    )
