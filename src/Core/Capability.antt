-- ===== src/Core/Capability.antt =====
-- core/scope.py, Kind and Capability: what an actor may ask for. A resource that ends in a star
-- stands for every resource with the text before the star as its prefix.
pub mod Laws
use headofcontext.Prelude.{
  ℕ, String, Bool, true, false, ◌&&◌, List, codes, is_prefix, ends_with, drop_last, ◌==◌,
  if◌then◌else◌,
}
use headofcontext.Core.Errors.{Result, ok, ◌>>=◌}
use headofcontext.Core.Refs.{validate_resource_pattern}

pub data Kind : Type 0 where
  read act remember : Kind

abbrev pub kind_eq : Kind → Kind → Bool
kind_eq read read = true
kind_eq act act = true
kind_eq remember remember = true
kind_eq _ _ = false

pub record Capability : Type 0 where
  pub kind : Kind
  pub resource : String

-- The dataclass constructor with `__post_init__`.
unfoldable pub make : Kind → String → Result Capability
unfolding validate_resource_pattern
make kind resource = do
  r ← validate_resource_pattern resource
  ok (record { kind = kind; resource = resource })

abbrev pub is_pattern : Capability → Bool
is_pattern c = ends_with b'*' (codes c.resource)

-- `self.resource[:-1]`.
abbrev pub prefix : Capability → List ℕ
prefix c = drop_last (codes c.resource)

unfoldable pub covers : Capability → Capability → Bool
covers self other =
    if kind_eq self.kind other.kind
    then if is_pattern self
      then is_prefix (prefix self) (codes other.resource)
      else self.resource == other.resource
    else false
