-- ===== src/Core/Decider/Each.antt =====
-- core/decider.py, decide_each: one decision for each resource from batched engine calls. The dict
-- `outcomes`, keyed by the index of a target, is a list of entries; a missing key raises.
pub mod Slices
pub mod Settled
pub mod Granted
use headofcontext.Prelude.{
  ℕ, zero, suc, ◌+◌, String, Bool, true, false, Option, none, some, List, [], ◌∷◌, ◌++◌, length,
  take, drop, map, is_empty, or_default, nat_eq, if◌then◌else◌,
}
use headofcontext.Prelude.Int.{ℤ}
use headofcontext.Core.Errors.{other, Result, ok, err}
use headofcontext.Core.Refs.{validate_ref}
use headofcontext.Core.Capability.{Kind}
use headofcontext.Core.Scope.{Scope}
use headofcontext.Core.Chain.{PrincipalChain}
use headofcontext.Core.Decision.{Action, Decision, DecisionContext, no_context}
use headofcontext.Core.Events.{from_decision}
use headofcontext.Core.Decider.{
  Evaluation, denied, of_verdict, scope_covers, policy_verdict, hash_args, batch, batch_limit,
  validate_all,
}
use headofcontext.World.{Env, Exec, pure, lift, ◌>>=◌, ◌>>◌, now, uuid4, elapsed, record_event}

abbrev pub Outcomes : Type 0
Outcomes = List (ℕ × Evaluation)

-- The first loop: the targets to ask the engine about, and the outcomes of the others.
unfoldable pub partition_scope :
    Scope → Kind → ℕ → List String → Result (List (ℕ × String) × Outcomes)
unfolding scope_covers
partition_scope scope kind index [] = ok ([], [])
partition_scope scope kind index (item ∷ rest) =
    let later = partition_scope scope kind (index + 1) rest in
    elim (scope_covers scope kind item) [
      | err e ↦ err e
      | ok covered ↦ elim later [
        | err e ↦ err e
        | ok (to_check, outcomes) ↦
            if covered
            then ok ((index, item) ∷ to_check, outcomes)
            else ok (to_check, (index, denied "scope_excluded" 0) ∷ outcomes)
      ]
    ]

-- `to_check[start : start + BATCH_LIMIT]` for each start: `room` is what the first slice may hold.
abbrev pub prepend {ℓ} : {A : Type ℓ} → A → List (List A) → List (List A)
prepend x [] = (x ∷ []) ∷ []
prepend x (slice ∷ rest) = (x ∷ slice) ∷ rest

unfoldable pub slices {ℓ} : {A : Type ℓ} → ℕ → List A → List (List A)
slices room [] = []
slices zero (x ∷ xs) = prepend x (slices batch_limit xs)
slices (suc zero) (x ∷ xs) = (x ∷ []) ∷ slices batch_limit xs
slices (suc (suc room)) (x ∷ xs) = prepend x (slices (suc room) xs)

-- `outcomes[index]`.
unfoldable pub find : ℕ → Outcomes → Result Evaluation
find index [] = err other
find index ((i, e) ∷ rest) = if nat_eq i index then ok e else find index rest

module _ {Args : Type 0} (env : Env Args) where
  -- The loop over one chunk; `related[position]` out of range raises.
  unfoldable pub settle_chunk :
      PrincipalChain
      → Action
      → Args
      → DecisionContext
      → ℕ
      → Option String
      → List Bool
      → List (ℕ × String)
      → Result Outcomes
  unfolding policy_verdict
  settle_chunk chain action args context latency_ms failure related [] = ok []
  settle_chunk chain action args context latency_ms (some reason) related ((index, item) ∷ rest) =
      let later = settle_chunk chain action args context latency_ms (some reason) related rest in
      elim later [ err e ↦ err e | ok os ↦ ok ((index, denied reason latency_ms) ∷ os) ]
  settle_chunk chain action args context latency_ms none [] ((index, item) ∷ rest) = err other
  settle_chunk chain action args context latency_ms none (related ∷ more) ((index, item) ∷ rest) =
      let later = settle_chunk chain action args context latency_ms none more rest in
      let here =
        if related
        then of_verdict (policy_verdict env chain action item args context) latency_ms
        else denied "not_related" latency_ms in
      elim later [ err e ↦ err e | ok os ↦ ok ((index, here) ∷ os) ]

  -- One round of the loop over the chunks.
  unfoldable pub check_chunk :
      PrincipalChain → Action → Args → DecisionContext → List (ℕ × String) → Exec Outcomes
  check_chunk chain action args context chunk = do
    answer ← batch env chain.subject action.relation (map (λ t. t.1) chunk)
    latency_ms ← elapsed env
    lift (settle_chunk chain action args context latency_ms answer.1 answer.0 chunk)

  -- `if audit_each: self._audit.record(...)`.
  unfoldable pub journal_if : Bool → Decision → Option String → Exec (Unit {0})
  journal_if false decision args_hash = pure tt
  journal_if true decision args_hash = do
    event_id ← uuid4 env
    record_event env (from_decision decision args_hash event_id)

  -- The loop over the chunks.
  unfoldable pub check_chunks :
      PrincipalChain
      → Action
      → Args
      → DecisionContext
      → List (List (ℕ × String))
      → Outcomes
      → Exec Outcomes
  check_chunks chain action args context [] outcomes = pure outcomes
  check_chunks chain action args context (chunk ∷ rest) outcomes = do
    settled ← check_chunk chain action args context chunk
    check_chunks chain action args context rest (outcomes ++ settled)

  -- The last loop: a decision for each target in order, journaled if `audit_each`.
  unfoldable pub build_decisions :
      PrincipalChain
      → Action
      → Option Args
      → Bool
      → ℤ
      → Outcomes
      → ℕ
      → List String
      → Exec (List Decision)
  build_decisions chain action args audit_each timestamp outcomes index [] = pure []
  build_decisions chain action args audit_each timestamp outcomes index (item ∷ rest) = do
    e ← lift (find index outcomes)
    decision_id ← uuid4 env
    let decision : Decision = record {
      outcome = e.outcome;
      reason = e.reason;
      chain = chain;
      resource = item;
      action = action;
      timestamp = timestamp;
      engine_latency_ms = e.latency_ms;
      decision_id = decision_id;
      resources = [];
    }
    journal_if audit_each decision (hash_args env args)
    decisions ← build_decisions chain action args audit_each timestamp outcomes (index + 1) rest
    pure (decision ∷ decisions)

  unfoldable pub decide_each :
      PrincipalChain
      → Action
      → List String
      → Bool
      → Option Args
      → Option DecisionContext
      → Exec (List Decision)
  decide_each chain action resources audit_each args context = do
    lift (validate_ref chain.subject "user")
    lift (validate_all resources)
    if is_empty resources then pure [] else do
      parts ← lift (partition_scope chain.scope action.kind 0 resources)
      outcomes ←
          check_chunks chain action (or_default args env.no_args) (or_default context no_context)
            (slices batch_limit parts.0) parts.1
      timestamp ← now env
      build_decisions chain action args audit_each timestamp outcomes 0 resources
