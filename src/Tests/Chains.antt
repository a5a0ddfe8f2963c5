-- ===== src/Tests/Chains.antt =====
-- References, capabilities, scopes and chains at concrete inputs.
use headofcontext.Prelude.{
  ◌≡◌, refl, ◌+◌, ◌≤◌, String, true, false, not, [], ◌∷◌, ◌||◌, leb, codes, ends_with, drop_last,
  ◌==◌, arith, if◌then◌else◌,
}
use headofcontext.Core.Errors.{ok, raised, scope_escalation, invariant_violation}
use headofcontext.Core.Refs.{is_ref, is_resource_pattern}
use headofcontext.Core.Refs.Laws.{pattern-inner_star, ref-is_resource_pattern}
use headofcontext.Core.Capability
use headofcontext.Core.Capability.{Capability, Kind}
use headofcontext.Core.Capability.Laws.{covers_trans}
use headofcontext.Core.Scope
use headofcontext.Core.Scope.Laws.{is_subset_of_trans, covers_mono}
use headofcontext.Core.Chain.{delegate, depth, max_delegation_depth}
use headofcontext.Core.Chain.Laws.{IsValid, delegate_lem, extended, post_init-IsValid}
use headofcontext.Core.Chain.Delegated.{Delegated, start, hop, Delegated-Attenuates, Attenuates}
use headofcontext.Tests.Fixtures.{docs, doc_a, reader, path_open, chain_open}

pattern-inner_star_example : ends_with b'*' (drop_last (codes "doc:x*")) ≡ false
unfolding path_open
pattern-inner_star_example = pattern-inner_star "doc:x*" refl refl

ref-is_resource_pattern_example : is_resource_pattern "user:alice" ≡ true
unfolding path_open
ref-is_resource_pattern_example = ref-is_resource_pattern "user:alice" "user" refl

abbrev reads : String → Capability
reads r = record { kind = Kind.read; resource = r }

covers_trans_example : Capability.covers (reads "doc:*") (reads "doc:a1") ≡ true
unfolding path_open
covers_trans_example = covers_trans (reads "doc:*") (reads "doc:a*") (reads "doc:a1") refl refl refl

is_subset_of_trans_example : Scope.is_subset_of doc_a docs ≡ true
unfolding path_open chain_open
is_subset_of_trans_example = is_subset_of_trans doc_a docs docs (refl, tt) refl refl

covers_mono_example : Scope.covers docs (reads "doc:a") ≡ true
unfolding path_open chain_open
covers_mono_example = covers_mono doc_a docs (reads "doc:a") (refl, tt) refl refl

reader-IsValid : IsValid reader
unfolding path_open chain_open
reader-IsValid = post_init-IsValid reader refl

delegate_lem_example : delegate reader "agent:sub" doc_a ≡ (
    if not (Scope.is_subset_of doc_a docs)
    then raised scope_escalation
    else if not (is_ref "agent:sub" "agent")
        || "agent:bot" == "agent:sub"
        || leb max_delegation_depth (depth reader)
    then raised invariant_violation
    else ok (extended reader "agent:sub" doc_a))
delegate_lem_example = delegate_lem reader "agent:sub" doc_a reader-IsValid

delegate_widening :
    delegate reader "agent:sub" (record { capabilities = reads "tool:mail" ∷ [] })
    ≡ raised scope_escalation
unfolding path_open chain_open
delegate_widening = refl

reader_delegates : delegate reader "agent:sub" doc_a ≡ ok (extended reader "agent:sub" doc_a)
unfolding path_open chain_open
reader_delegates = refl

reader_hops : Delegated reader 1 (extended reader "agent:sub" doc_a)
reader_hops = hop "agent:sub" doc_a (start refl) reader_delegates (omega arith)

docs-IsValid : is_resource_pattern "doc:*" ≡ true
unfolding path_open
docs-IsValid = refl

Delegated-Attenuates_example :
    Attenuates reader 1 (extended reader "agent:sub" doc_a)
    × (depth reader + 1 ≤ max_delegation_depth)
Delegated-Attenuates_example = Delegated-Attenuates reader-IsValid (docs-IsValid, tt) reader_hops
