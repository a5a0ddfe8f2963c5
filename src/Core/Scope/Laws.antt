-- ===== src/Core/Scope/Laws.antt =====
-- `is_subset_of` is a preorder on valid scopes, and `covers` follows it.
use headofcontext.Prelude.{
  ◌≡◌, sym, subst, true, all, All, Member, all-Member, all_of_Member, any-Member, any_of_Member,
  All-Member, and-eq-true, eq_iff, eq_refl, ◌==◌,
}
use headofcontext.Core.Capability
use headofcontext.Core.Capability.{Capability, kind_eq}
use headofcontext.Core.Capability.Laws
use headofcontext.Core.Capability.Laws.{kind_eq→eq, kind_eq_refl, covers_trans}
use headofcontext.Core.Scope.{Scope, capability_eq, contains, scope_eq, covers, is_subset_of}

-- Every capability was accepted by its constructor.
abbrev pub IsValid : Scope → Type 0
IsValid s = All Laws.IsValid s.capabilities

pub capability_eq→eq : (a b : Capability) → capability_eq a b ≡ true → a ≡ b
capability_eq→eq a b h =
    let (same_kind, same_text) = and-eq-true (kind_eq a.kind b.kind) (a.resource == b.resource) h in
    let k = kind_eq→eq a.kind b.kind same_kind in
    let r = (eq_iff a.resource b.resource).0 same_text in λ i. record { kind = k i; resource = r i }

pub capability_eq_refl : (a : Capability) → capability_eq a a ≡ true
capability_eq_refl a = rw (kind_eq_refl a.kind) (eq_refl a.resource)

contains_of_Member : (s : Scope) {c : Capability} → Member c s.capabilities → contains s c ≡ true
contains_of_Member s {c} m = any_of_Member (capability_eq c) m (capability_eq_refl c)

Member-of_contains : (s : Scope) (c : Capability) → contains s c ≡ true → Member c s.capabilities
Member-of_contains s c h =
    let (own, m, e) = any-Member (capability_eq c) s.capabilities h in
    subst (λ a. Member a s.capabilities) (sym (capability_eq→eq c own e)) m

pub scope_eq_refl : (s : Scope) → scope_eq s s ≡ true
unfolding scope_eq
scope_eq_refl s =
    let h = all_of_Member (contains s) s.capabilities (λ c m. contains_of_Member s m) in rw h

-- A scope covers what one of its members covers.
pub covers_of_Member :
    (s : Scope) {own : Capability} (c : Capability)
    → Member own s.capabilities
    → Capability.covers own c ≡ true
    → covers s c ≡ true
unfolding covers
covers_of_Member s c m h = any_of_Member (λ own. Capability.covers own c) m h

-- A narrower scope covers no more.
pub covers_mono :
    (s t : Scope) (c : Capability)
    → IsValid t
    → is_subset_of s t ≡ true
    → covers s c ≡ true
    → covers t c ≡ true
unfolding covers is_subset_of
covers_mono s t c vt h k =
    let (own, m, e) = any-Member (λ own. Capability.covers own c) s.capabilities k in
    let (wide, n, f) =
      any-Member (λ w. Capability.covers w own) t.capabilities (all-Member (covers t) h m) in
    any_of_Member (λ w. Capability.covers w c) n
      (covers_trans wide own c (All-Member Laws.IsValid vt n) f e)

pub is_subset_of_refl : (s : Scope) → is_subset_of s s ≡ true
unfolding is_subset_of
is_subset_of_refl s =
    all_of_Member (covers s) s.capabilities
      (λ c m. covers_of_Member s c m (Capability.Laws.covers_refl c))

pub is_subset_of_trans :
    (s t u : Scope)
    → IsValid u
    → is_subset_of s t ≡ true
    → is_subset_of t u ≡ true
    → is_subset_of s u ≡ true
unfolding is_subset_of
is_subset_of_trans s t u vu h k =
    all_of_Member (covers u) s.capabilities
      (λ c m. covers_mono t u c vu k (all-Member (covers t) h m))

-- Equal sets cover the same capabilities.
covers_of_scope_eq :
    (s t : Scope) (c : Capability) → scope_eq s t ≡ true → covers t c ≡ true → covers s c ≡ true
unfolding covers scope_eq
covers_of_scope_eq s t c h k =
    let (own, m, e) = any-Member (λ own. Capability.covers own c) t.capabilities k in
    let both = and-eq-true (all (contains t) s.capabilities) (all (contains s) t.capabilities) h in
    covers_of_Member s c (Member-of_contains s own (all-Member (contains s) both.1 m)) e

pub is_subset_of-scope_eq :
    (r s t : Scope) → scope_eq s t ≡ true → is_subset_of r t ≡ true → is_subset_of r s ≡ true
unfolding is_subset_of
is_subset_of-scope_eq r s t h k =
    all_of_Member (covers s) r.capabilities
      (λ c m. covers_of_scope_eq s t c h (all-Member (covers t) k m))
