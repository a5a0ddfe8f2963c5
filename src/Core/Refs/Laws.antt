-- ===== src/Core/Refs/Laws.antt =====
-- What the validators of core/refs.py accept: the star of a pattern is its last character.
use headofcontext.Prelude.{
  ℕ, ◌≡◌, ◌≢◌, refl, String, true, false, some, List, [], ◌∷◌, arith, codes, ends_with, drop_last,
  Option-cases, Bool-cases, nat_eq, ap, inl, inr, and-eq-true,
}
use headofcontext.Core.Refs.{
  is_resource_pattern, is_ref, id_char, match_type, after_id, scan_type, at_end, type_char,
  type_head, star_end, pattern_id, plain_id,
}

ends_star-tail :
    (c : ℕ) (s : List ℕ) → c ≢ b'*' → ends_with b'*' (c ∷ s) ≡ true → ends_with b'*' s ≡ true
ends_star-tail c [] h e = absurd (h (ground arith))
ends_star-tail c (d ∷ s) h e = e

inner_star-cons :
    (c : ℕ) (s : List ℕ)
    → c ≢ b'*'
    → ends_with b'*' (drop_last s) ≡ false
    → ends_with b'*' (drop_last (c ∷ s)) ≡ false
inner_star-cons c [] h e = refl
inner_star-cons c (d ∷ []) h e = ground arith
inner_star-cons c (d ∷ e ∷ s) h k = k

star-not-id_char : id_char b'*' ≡ false
unfolding id_char
star-not-id_char = refl

id_char-ne-star : (c : ℕ) → id_char c ≡ true → c ≢ b'*'
id_char-ne-star c h e = cc (ap id_char e, star-not-id_char)

star_end-inner_star :
    (s : List ℕ)
    → star_end s ≡ true
    → ends_with b'*' s ≡ true
    → ends_with b'*' (drop_last s) ≡ false
star_end-inner_star [] h k = refl
star_end-inner_star (c ∷ []) h k = refl
star_end-inner_star (c ∷ d ∷ []) h k = ground arith
star_end-inner_star (c ∷ d ∷ e ∷ s) h k = absurd (ground arith)

after_id-inner_star :
    (s : List ℕ)
    → star_end (after_id s) ≡ true
    → ends_with b'*' s ≡ true
    → ends_with b'*' (drop_last s) ≡ false
unfolding after_id
after_id-inner_star [] h k = refl
after_id-inner_star (c ∷ s) h k = elim (Bool-cases (id_char c)) [
  | inl e ↦
      inner_star-cons c s (id_char-ne-star c e)
        (after_id-inner_star s (rw e at h) (ends_star-tail c s (id_char-ne-star c e) k))
  | inr e ↦ star_end-inner_star (c ∷ s) (rw e at h) k
]

pattern_id-star_end : (s : List ℕ) → pattern_id s ≡ true → star_end (after_id s) ≡ true
pattern_id-star_end s h = (and-eq-true (star_end (after_id s)) _ h).0

type_char-ne-star : (c : ℕ) → type_char c ≡ true → c ≢ b'*'
type_char-ne-star c h e = ground arith

scan_type-inner_star :
    (s : List ℕ) (p : List ℕ × List ℕ)
    → scan_type s ≡ some p
    → pattern_id p.1 ≡ true
    → ends_with b'*' s ≡ true
    → ends_with b'*' (drop_last s) ≡ false
unfolding scan_type
scan_type-inner_star [] p e h k = refl
scan_type-inner_star (c ∷ s) p e h k = elim (Bool-cases (nat_eq b':' c)) [
  | inl colon ↦
      let ne : c ≢ b'*' = ground arith in
      let same : s ≡ p.1 = ground arith in
      let star : ends_with b'*' s ≡ true = ends_star-tail c s ne k in
      inner_star-cons c s ne (after_id-inner_star s (pattern_id-star_end s (rw same h)) star)
  | inr other ↦ elim (Bool-cases (type_char c)) [
    | inl part ↦
        let ne : c ≢ b'*' = type_char-ne-star c part in
        elim (Option-cases (scan_type s)) [
          | inl missing ↦ absurd (ground arith)
          | inr (q, found) ↦
              let same : q.1 ≡ p.1 = ground arith in
              inner_star-cons c s ne
                (scan_type-inner_star s q found (rw same h) (ends_star-tail c s ne k))
        ]
    | inr bad ↦ absurd (ground arith)
  ]
]

match_type-inner_star :
    (s : List ℕ) (p : List ℕ × List ℕ)
    → match_type s ≡ some p
    → pattern_id p.1 ≡ true
    → ends_with b'*' s ≡ true
    → ends_with b'*' (drop_last s) ≡ false
unfolding match_type
match_type-inner_star [] p e h k = refl
match_type-inner_star (c ∷ s) p e h k = elim (Bool-cases (type_head c)) [
  | inl head ↦
      let ne : c ≢ b'*' = ground arith in
      elim (Option-cases (scan_type s)) [
        | inl missing ↦ absurd (ground arith)
        | inr (q, found) ↦
            let same : q.1 ≡ p.1 = ground arith in
            inner_star-cons c s ne
              (scan_type-inner_star s q found (rw same h) (ends_star-tail c s ne k))
      ]
  | inr bad ↦ absurd (ground arith)
]

-- A resource pattern that ends in a star has no star just before it.
pub pattern-inner_star :
    (r : String)
    → is_resource_pattern r ≡ true
    → ends_with b'*' (codes r) ≡ true
    → ends_with b'*' (drop_last (codes r)) ≡ false
unfolding is_resource_pattern
pattern-inner_star r h k = elim (Option-cases (match_type (codes r))) [
  | inl missing ↦ absurd (ground arith)
  | inr (p, found) ↦ match_type-inner_star (codes r) p found (ground arith) k
]

at_end-star_end : (s : List ℕ) → at_end s ≡ true → star_end s ≡ true
at_end-star_end [] h = refl
at_end-star_end (c ∷ s) h = ground arith

-- A reference of some type is also a resource pattern.
plain_id-pattern_id : (s : List ℕ) → plain_id s ≡ true → pattern_id s ≡ true
unfolding after_id
plain_id-pattern_id [] h = absurd (ground arith)
plain_id-pattern_id (c ∷ s) h = elim (Bool-cases (id_char c)) [
  | inl e ↦ ground (arith, at_end-star_end (after_id s))
  | inr e ↦ absurd (ground arith)
]

pub ref-is_resource_pattern :
    (value type : String) → is_ref value type ≡ true → is_resource_pattern value ≡ true
unfolding is_ref is_resource_pattern
ref-is_resource_pattern value type h = elim (Option-cases (match_type (codes value))) [
  | inl missing ↦ absurd (ground arith)
  | inr (p, found) ↦ ground (arith, plain_id-pattern_id p.1)
]
