-- ===== src/Core/Chain.antt =====
-- core/chain.py: who is acted for, who acts, and what was delegated along the way.
pub mod Laws
pub mod Delegated
use headofcontext.Prelude.{
  ℕ, ◌<◌, String, Bool, true, false, not, Option, none, some, List, [], ◌∷◌, ◌++◌, length, ltb,
  ◌==◌, or_default, if◌then◌else◌,
}
use headofcontext.Core.Errors.{
  ErrorClass, Result, ok, raised, invariant_violation, scope_escalation, ◌>>=◌, ◌>>◌,
}
use headofcontext.Core.Refs.{validate_ref}
use headofcontext.Core.Scope.{Scope, scope_eq, is_subset_of}

abbrev pub max_delegation_depth : ℕ
max_delegation_depth = 8

pub record Delegation : Type 0 where
  pub from_actor : String
  pub to_actor : String
  pub scope : Scope

-- `if c: raise C(...)`.
abbrev pub raise_if : Bool → ErrorClass → Result (Unit {0})
raise_if true c = raised c
raise_if false c = ok tt

-- The dataclass constructor with `__post_init__`.
unfoldable pub make_delegation : String → String → Scope → Result Delegation
unfolding validate_ref
make_delegation from_actor to_actor scope = do
  validate_ref from_actor "agent"
  validate_ref to_actor "agent"
  raise_if (from_actor == to_actor) invariant_violation
  ok (record { from_actor = from_actor; to_actor = to_actor; scope = scope })

-- `recorded_root` is the field `_root_scope`.
pub record PrincipalChain : Type 0 where
  pub subject : String
  pub actor : String
  pub delegation : List Delegation
  pub scope : Scope
  pub recorded_root : Option Scope

-- `self.delegation[-1]` of a list with a first element.
abbrev pub last_of : Delegation → List Delegation → Delegation
last_of first [] = first
last_of first (link ∷ rest) = last_of link rest

-- The loop of `__post_init__`: contiguous links, each within the scope of the one before.
unfoldable pub check_links : Delegation → List Delegation → Result (Unit {0})
check_links previous [] = ok tt
check_links previous (link ∷ rest) =
    if not (link.from_actor == previous.to_actor)
    then raised invariant_violation
    else if not (is_subset_of link.scope previous.scope)
    then raised scope_escalation
    else check_links link rest

unfoldable pub check_delegation : PrincipalChain → List Delegation → Result (Unit {0})
check_delegation c [] = ok tt
check_delegation c (first ∷ rest) = do
  raise_if (not ((last_of first rest).to_actor == c.actor)) invariant_violation
  raise_if (not (scope_eq (last_of first rest).scope c.scope)) invariant_violation
  check_links first rest

unfoldable pub post_init : PrincipalChain → Result (Unit {0})
unfolding validate_ref
post_init c = do
  validate_ref c.subject "user"
  validate_ref c.actor "agent"
  raise_if (ltb max_delegation_depth (length c.delegation)) invariant_violation
  check_delegation c c.delegation

-- The dataclass constructor.
unfoldable pub make : PrincipalChain → Result PrincipalChain
make c = do post_init c; ok c

unfoldable pub root : String → String → Scope → Result PrincipalChain
unfolding make
root subject actor scope = make (record {
  subject = subject;
  actor = actor;
  delegation = [];
  scope = scope;
  recorded_root = none;
})

unfoldable pub root_actor : PrincipalChain → String
root_actor c = elim (c.delegation) [ [] ↦ c.actor | first ∷ rest ↦ first.from_actor ]

unfoldable pub root_scope : PrincipalChain → Scope
root_scope c = or_default c.recorded_root c.scope

abbrev pub depth : PrincipalChain → ℕ
depth c = length c.delegation

unfoldable pub delegate : PrincipalChain → String → Scope → Result PrincipalChain
unfolding make_delegation make
delegate self to_actor scope =
    if not (is_subset_of scope self.scope) then raised scope_escalation else do
      link ← make_delegation self.actor to_actor scope
      make (record {
        subject = self.subject;
        actor = to_actor;
        delegation = self.delegation ++ link ∷ [];
        scope = scope;
        recorded_root = some (root_scope self);
      })
