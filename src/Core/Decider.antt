-- ===== src/Core/Decider.antt =====
-- core/decider.py: the one decision path of READ, ACT and REMEMBER. The metrics sink is left out: it
-- is told of a decision after the journal and its answer is not used.
pub mod Each
pub mod Laws
pub mod Reasons
pub mod All
pub mod Total
use headofcontext.Prelude.{
  ℕ, zero, suc, ◌+◌, String, Bool, true, false, not, ◌&&◌, ◌||◌, Option, none, some, List, [], ◌∷◌,
  ◌++◌, length, take, drop, all, any, map, is_empty, is_none, or_default, or_text, nat_eq,
  if◌then◌else◌,
}
use headofcontext.Core.Errors.{Exception, hoc, other, Result, ok, err}
use headofcontext.Core.Refs.{validate_ref, validate_resource_pattern}
use headofcontext.Core.Capability
use headofcontext.Core.Capability.{Kind}
use headofcontext.Core.Scope
use headofcontext.Core.Scope.{Scope}
use headofcontext.Core.Chain.{PrincipalChain}
use headofcontext.Core.Decision.{
  Outcome, allow, deny, is_allow, Action, Decision, Verdict, DecisionContext, no_context, Policy,
}
use headofcontext.Core.Events.{from_decision}
use headofcontext.World.{
  World, Env, Exec, pure, lift, gets, ◌>>=◌, ◌>>◌, now, uuid4, elapsed, record_event,
}

abbrev pub batch_limit : ℕ
batch_limit = 50

-- What `_evaluate` returns: the outcome, its reason and the latency of the engine.
pub record Evaluation : Type 0 where
  pub outcome : Outcome
  pub reason : String
  pub latency_ms : ℕ

abbrev pub denied : String → ℕ → Evaluation
denied reason latency_ms = record { outcome = deny; reason = reason; latency_ms = latency_ms }

abbrev pub of_verdict : Verdict → ℕ → Evaluation
of_verdict v latency_ms = record { outcome = v.outcome; reason = v.reason; latency_ms = latency_ms }

abbrev pub plain_allow : Verdict
plain_allow = record { outcome = allow; reason = "allowed" }

-- `exc.reason` of a HocError, and `engine_error` for any other exception.
abbrev pub engine_failure : Exception → String
engine_failure (hoc e) = e.reason
engine_failure other = "engine_error"

-- `chain.scope.covers(Capability(kind, resource))`.
unfoldable pub scope_covers : Scope → Kind → String → Result Bool
scope_covers scope kind resource = elim (Capability.make kind resource) [
  | ok cap ↦ ok (Scope.covers scope cap)
  | err e ↦ err e
]

-- A policy's answer: an ALLOW loses its reason, an exception is a denial.
abbrev pub settle_policy : Result Verdict → Verdict
settle_policy (ok v) = if is_allow v.outcome then plain_allow else v
settle_policy (err e) = record { outcome = deny; reason = "policy_error" }

-- `_batch` on the engine's answer, for so many resources.
unfoldable pub settle_batch : ℕ → Result (List Bool) → List Bool × Option String
settle_batch n (err e) = ([], some (engine_failure e))
settle_batch n (ok related) =
    if nat_eq (length related) n then (related, none) else ([], some "engine_error")

-- `any(not chain.scope.covers(Capability(kind, t)) for t in targets)`, which stops at the first.
unfoldable pub scope_excludes : Scope → Kind → List String → Result Bool
unfolding scope_covers
scope_excludes scope kind [] = ok false
scope_excludes scope kind (t ∷ rest) =
    let later = scope_excludes scope kind rest in
    elim (scope_covers scope kind t) [
      | ok covered ↦ if covered then later else ok true
      | err e ↦ err e
    ]

-- `for item in items: validate_resource_pattern(item)`.
unfoldable pub validate_all : List String → Result (Unit {0})
unfolding validate_resource_pattern
validate_all [] = ok tt
validate_all (item ∷ rest) =
    let later = validate_all rest in
    elim (validate_resource_pattern item) [ ok r ↦ later | err e ↦ err e ]

unfoldable pub first_or : String → List String → String
first_or d [] = d
first_or d (item ∷ rest) = item

module _ {Args : Type 0} (env : Env Args) where
  unfoldable pub policy_verdict :
      PrincipalChain → Action → String → Args → DecisionContext → Verdict
  policy_verdict chain action resource args context = elim (env.policy) [
    | none ↦ plain_allow
    | some evaluate ↦ settle_policy (evaluate chain action resource args context)
  ]

  -- What `_evaluate` makes of the engine's answer.
  unfoldable pub after_check :
      PrincipalChain → Action → String → Args → DecisionContext → Result Bool → ℕ → Evaluation
  unfolding policy_verdict
  after_check chain action resource args context (err e) latency_ms =
      denied (engine_failure e) latency_ms
  after_check chain action resource args context (ok false) latency_ms =
      denied "not_related" latency_ms
  after_check chain action resource args context (ok true) latency_ms =
      of_verdict (policy_verdict chain action resource args context) latency_ms

  unfoldable pub evaluate :
      PrincipalChain → Action → String → Args → DecisionContext → Exec Evaluation
  evaluate chain action resource args context = do
    covered ← lift (scope_covers chain.scope action.kind resource)
    if not covered then pure (denied "scope_excluded" 0) else do
      related ← gets (λ w. env.check w chain.subject action.relation resource)
      latency_ms ← elapsed env
      pure (after_check chain action resource args context related latency_ms)

  -- core/events.py, hash_args.
  abbrev pub hash_args : Option Args → Option String
  hash_args none = none
  hash_args (some a) = some (env.hash_json a)

  -- Building the Decision and journaling it, as `decide` and `decide_all` end.
  unfoldable pub conclude :
      PrincipalChain → Action → String → List String → Option Args → Evaluation → Exec Decision
  conclude chain action resource resources args e = do
    timestamp ← now env
    decision_id ← uuid4 env
    event_id ← uuid4 env
    let decision : Decision = record {
      outcome = e.outcome;
      reason = e.reason;
      chain = chain;
      resource = resource;
      action = action;
      timestamp = timestamp;
      engine_latency_ms = e.latency_ms;
      decision_id = decision_id;
      resources = resources;
    }
    record_event env (from_decision decision (hash_args args) event_id)
    pure decision

  unfoldable pub decide :
      PrincipalChain → Action → String → Option Args → Option DecisionContext → Exec Decision
  decide chain action resource args context = do
    lift (validate_resource_pattern resource)
    lift (validate_ref chain.subject "user")
    e ← evaluate chain action resource (or_default args env.no_args) (or_default context no_context)
    conclude chain action resource [] args e

  -- `_batch`: the answers, or a denial reason; an answer of another length is a failure.
  unfoldable pub batch : String → String → List String → Exec (List Bool × Option String)
  batch subject relation resources = do
    answer ← gets (λ w. env.batch_check w subject (map (λ r. (relation, r)) resources))
    pure (settle_batch (length resources) answer)

  -- The loop of `_evaluate_all` over the policies: the first verdict that is no ALLOW.
  unfoldable pub first_refusal :
      PrincipalChain → Action → List String → Args → DecisionContext → ℕ → Evaluation
  unfolding policy_verdict
  first_refusal chain action [] args context latency_ms = record {
    outcome = allow;
    reason = "allowed";
    latency_ms = latency_ms;
  }
  first_refusal chain action (item ∷ rest) args context latency_ms =
      let v = policy_verdict chain action item args context in
      let later = first_refusal chain action rest args context latency_ms in
      if is_allow v.outcome then later else of_verdict v latency_ms

  -- What `_evaluate_all` makes of the answers.
  unfoldable pub after_batch :
      PrincipalChain
      → Action
      → List String
      → Args
      → DecisionContext
      → List Bool × Option String
      → ℕ
      → Evaluation
  unfolding first_refusal
  after_batch chain action resources args context (related, some failure) latency_ms =
      denied (or_text (some failure) "not_related") latency_ms
  after_batch chain action resources args context (related, none) latency_ms =
      if all (λ b. b) related
      then first_refusal chain action resources args context latency_ms
      else denied "not_related" latency_ms

  unfoldable pub evaluate_all :
      PrincipalChain
      → Action
      → List String
      → List String
      → Bool
      → Args
      → DecisionContext
      → Exec Evaluation
  evaluate_all chain action resources scope_targets explicit_scope args context =
      if is_empty resources && not explicit_scope then pure (denied "no_resource" 0) else do
        excluded ← lift (scope_excludes chain.scope action.kind scope_targets)
        if excluded
            then pure (denied "scope_excluded" 0)
            else if is_empty resources
            then pure (record { outcome = allow; reason = "scope_only"; latency_ms = 0 })
            else do
              answer ← batch chain.subject action.relation resources
              latency_ms ← elapsed env
              pure (after_batch chain action resources args context answer latency_ms)

  unfoldable pub decide_all :
      PrincipalChain
      → Action
      → List String
      → Option (List String)
      → Option String
      → Option Args
      → Option DecisionContext
      → Exec Decision
  decide_all chain action resources scope_resources resource args context = do
    lift (validate_ref chain.subject "user")
    let scope_targets = or_default scope_resources resources
    lift (validate_all (resources ++ scope_targets))
    e ←
        evaluate_all chain action resources scope_targets (not (is_none scope_resources))
          (or_default args env.no_args) (or_default context no_context)
    conclude chain action (or_default resource (first_or "" resources)) resources args e
