-- ===== src/Core/Capability/Laws.antt =====
-- `covers` is a preorder on the capabilities that the constructor accepts.
use headofcontext.Prelude.{
  ◌≡◌, refl, ap, ◌∙◌, inl, inr, String, true, false, arith, codes, is_prefix, ends_with,
  ends_with-split, is_prefix-concat, is_prefix_trans, eq_iff, eq_refl, Bool-cases, ends_with_concat,
  is_prefix-drop_last, ◌⊎◌, subst,
}
use headofcontext.Core.Errors.{ok}
use headofcontext.Core.Refs.{is_resource_pattern}
use headofcontext.Core.Refs.Laws.{pattern-inner_star}
use headofcontext.Core.Capability.{
  Kind, Capability, read, act, remember, kind_eq, make, is_pattern, prefix, covers,
}

-- A capability whose resource `validate_resource_pattern` accepts.
abbrev pub IsValid : Capability → Type 0
IsValid c = is_resource_pattern c.resource ≡ true

pub kind_eq_refl : (k : Kind) → kind_eq k k ≡ true
kind_eq_refl read = refl
kind_eq_refl act = refl
kind_eq_refl remember = refl

pub kind_eq→eq : (k j : Kind) → kind_eq k j ≡ true → k ≡ j
kind_eq→eq k j h = ground arith

-- What a successful test means.
abbrev Covers : Capability → Capability → Type 0
Covers a b =
    (a.kind ≡ b.kind)
    × ((is_pattern a ≡ true) × (is_prefix (prefix a) (codes b.resource) ≡ true)
        ⊎ (is_pattern a ≡ false) × (a.resource ≡ b.resource))

covers→Covers : (a b : Capability) → covers a b ≡ true → Covers a b
unfolding covers
covers→Covers a b h = elim (Bool-cases (kind_eq a.kind b.kind)) [
  | inl same ↦ (
    kind_eq→eq a.kind b.kind same,
    elim (Bool-cases (is_pattern a)) [
      | inl wide ↦ inl (wide, ground arith)
      | inr exact ↦ inr (exact, ground (arith, eq_iff a.resource b.resource))
    ],
  )
  | inr differ ↦ absurd (ground arith)
]

Covers→covers : (a b : Capability) → Covers a b → covers a b ≡ true
unfolding covers
Covers→covers a b (k, inl (wide, p)) = rw (← k, kind_eq_refl a.kind, wide) p
Covers→covers a b (k, inr (exact, e)) =
    rw (← k, kind_eq_refl a.kind, exact, ← e) (eq_refl a.resource)

pub covers_refl : (c : Capability) → covers c c ≡ true
covers_refl c = elim (Bool-cases (is_pattern c)) [
  | inl wide ↦ Covers→covers c c (refl, inl (wide, is_prefix-drop_last (codes c.resource)))
  | inr exact ↦ Covers→covers c c (refl, inr (exact, refl))
]

-- The prefix of a pattern that covers a pattern is a prefix of that one's prefix.
prefix-prefix :
    (a b : Capability)
    → IsValid a
    → is_pattern a ≡ true
    → is_pattern b ≡ true
    → is_prefix (prefix a) (codes b.resource) ≡ true
    → is_prefix (prefix a) (prefix b) ≡ true
prefix-prefix a b va pa pb h =
    let split = ends_with-split b'*' (codes b.resource) pb in
    elim (is_prefix-concat (prefix a) (prefix b) b'*'
      (subst (λ s. is_prefix (prefix a) s ≡ true) split h)) [
        | inl within ↦ within
        | inr whole ↦
            let star : ends_with b'*' (prefix a) ≡ true =
              rw whole (ends_with_concat (prefix b) b'*') in
            cc (star, pattern-inner_star a.resource va pa)
      ]

-- Coverage composes: whatever `b` covers, a capability that covers `b` covers too. It needs that
-- the constructor accepted the widest of the three.
pub covers_trans :
    (a b c : Capability) → IsValid a → covers a b ≡ true → covers b c ≡ true → covers a c ≡ true
covers_trans a b c va h k = compose (covers→Covers a b h) (covers→Covers b c k)
  where
    compose : Covers a b → Covers b c → covers a c ≡ true
    compose (k, inr (ea, e)) (j, inl (pb, p)) =
        cc (ea, pb, ap (λ (s : String). ends_with b'*' (codes s)) e)
    compose (k, inr (ea, e)) (j, inr (eb, f)) = Covers→covers a c (k ∙ j, inr (ea, e ∙ f))
    compose (k, inl (pa, p)) (j, inr (eb, f)) =
        Covers→covers a c (k ∙ j, inl (pa, subst (λ s. is_prefix (prefix a) (codes s) ≡ true) f p))
    compose (k, inl (pa, p)) (j, inl (pb, q)) = Covers→covers a c (
      k ∙ j,
      inl (
        pa,
        is_prefix_trans (prefix a) (prefix b) (codes c.resource) (prefix-prefix a b va pa pb p) q,
      ),
    )

-- What the constructor returns is valid, and it accepts just that.
pub make-eq-ok :
    (k : Kind) (r : String) {c : Capability}
    → make k r ≡ ok c
    → IsValid c × (c ≡ record { kind = k; resource = r })
unfolding make
make-eq-ok k r h = ground arith
