-- ===== src/Actions/Policies.antt =====
-- actions/policies.py: the built-in policies for tool calls. A predicate over the arguments may raise.
pub mod Laws
use headofcontext.Prelude.{
  String, Bool, true, false, not, ◌||◌, Option, none, some, List, [], ◌∷◌, any, is_none, map,
  if◌then◌else◌,
}
use headofcontext.Core.Errors.{Exception, Result, ok, err, ◌>>=◌}
use headofcontext.Core.Capability
use headofcontext.Core.Capability.{Kind, Capability, kind_eq}
use headofcontext.Core.Chain.{PrincipalChain}
use headofcontext.Core.Decision.{
  deny, require_approval, Action, Verdict, policy_allowed, most_restrictive, DecisionContext,
  Policy,
}

-- `_matches`: the resource becomes an ACT capability, which its constructor validates.
unfoldable pub matches : List Capability → String → Result Bool
matches [] resource = ok false
matches (p ∷ rest) resource =
    let later = matches rest resource in
    elim (Capability.make Kind.act resource) [
      | err e ↦ err e
      | ok cap ↦ if Capability.covers p cap then ok true else later
    ]

-- `[Capability(Kind.ACT, t) for t in tools]`.
unfoldable pub patterns_of : List String → Result (List Capability)
patterns_of [] = ok []
patterns_of (t ∷ rest) = do
  cap ← Capability.make Kind.act t
  caps ← patterns_of rest
  ok (cap ∷ caps)

-- `action.kind is not Kind.ACT or not _matches(patterns, resource)`.
unfoldable pub is_outside : List Capability → Action → String → Result Bool
is_outside patterns action resource =
    if not (kind_eq action.kind Kind.act)
    then ok true
    else elim (matches patterns resource) [ ok found ↦ ok (not found) | err e ↦ err e ]

abbrev pub verdict_error : Verdict
verdict_error = record { outcome = deny; reason = "policy_error" }

-- The objects; `patterns` is what the constructor makes of the tools by `patterns_of`.
pub record RequireApproval (Args : Type 0) : Type 0 where
  pub patterns : List Capability
  pub when : Option (Args → Result Bool)
  pub reason : String

pub record DenyWhen (Args : Type 0) : Type 0 where
  pub patterns : List Capability
  pub predicate : Args → Result Bool
  pub reason : String

-- The end of `RequireApproval.evaluate`: only the context can carry an approval.
unfoldable pub ask : String → DecisionContext → Verdict
ask reason context =
    if is_none context.approval_id
    then record { outcome = require_approval; reason = reason }
    else policy_allowed

-- The guard on `when`, by the predicate's answer if there is one.
unfoldable pub ask_when : Option (Result Bool) → String → DecisionContext → Verdict
unfolding ask
ask_when none reason context = ask reason context
ask_when (some (ok true)) reason context = ask reason context
ask_when (some (ok false)) reason context = policy_allowed
ask_when (some (err e)) reason context = verdict_error

unfoldable pub deny_if : Result Bool → String → Verdict
deny_if (ok hit) reason = if hit then record { outcome = deny; reason = reason } else policy_allowed
deny_if (err e) reason = verdict_error

module _ {Args : Type 0} where
  abbrev pub answer : Option (Args → Result Bool) → Args → Option (Result Bool)
  answer none args = none
  answer (some f) args = some (f args)

  unfoldable pub require_approval_evaluate : RequireApproval Args → Policy Args
  unfolding ask_when
  require_approval_evaluate p chain action resource args context = do
    outside ← is_outside p.patterns action resource
    ok (if outside then policy_allowed else ask_when (answer p.when args) p.reason context)

  unfoldable pub deny_when_evaluate : DenyWhen Args → Policy Args
  unfolding deny_if
  deny_when_evaluate p chain action resource args context = do
    outside ← is_outside p.patterns action resource
    ok (if outside then policy_allowed else deny_if (p.predicate args) p.reason)

  -- The loop of `CompositePolicy.evaluate`; an exception of a policy leaves the loop.
  unfoldable pub combine_from : Verdict → List (Policy Args) → Policy Args
  combine_from verdict [] chain action resource args context = ok verdict
  combine_from verdict (policy ∷ rest) chain action resource args context = do
    v ← policy chain action resource args context
    combine_from (most_restrictive verdict v) rest chain action resource args context

  unfoldable pub composite_evaluate : List (Policy Args) → Policy Args
  unfolding combine_from
  composite_evaluate policies = combine_from policy_allowed policies
