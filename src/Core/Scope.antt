-- ===== src/Core/Scope.antt =====
-- core/scope.py, Scope: a frozen set of capabilities, as a list read up to order and repetition.
pub mod Laws
use headofcontext.Prelude.{Bool, ◌&&◌, List, [], any, all, ◌==◌}
use headofcontext.Core.Capability
use headofcontext.Core.Capability.{Capability, kind_eq}

pub record Scope : Type 0 where
  pub capabilities : List Capability

abbrev pub empty : Scope
empty = record { capabilities = [] }

-- `==` of the frozen dataclass, and `cap in scope`.
abbrev pub capability_eq : Capability → Capability → Bool
capability_eq a b = kind_eq a.kind b.kind && a.resource == b.resource

abbrev pub contains : Scope → Capability → Bool
contains s c = any (capability_eq c) s.capabilities

-- `==` of the frozen sets.
unfoldable pub scope_eq : Scope → Scope → Bool
scope_eq s t = all (contains t) s.capabilities && all (contains s) t.capabilities

unfoldable pub covers : Scope → Capability → Bool
covers s c = any (λ own. Capability.covers own c) s.capabilities

unfoldable pub is_subset_of : Scope → Scope → Bool
unfolding covers
is_subset_of s other = all (covers other) s.capabilities
