-- ===== src/Core/Decision.antt =====
-- core/decision.py and core/policy.py: what is asked, what is decided, and the verdict of a policy.
-- A latency is a count of some fixed fraction of a millisecond, since there are no floats.
use headofcontext.Prelude.{ℕ, String, Bool, true, false, Option, none, List, ltb, if◌then◌else◌}
use headofcontext.Prelude.Int.{ℤ}
use headofcontext.Core.Errors.{Result}
use headofcontext.Core.Capability.{Kind}
use headofcontext.Core.Chain.{PrincipalChain}

pub data Outcome : Type 0 where
  allow deny require_approval : Outcome

abbrev pub is_allow : Outcome → Bool
is_allow allow = true
is_allow _ = false

abbrev pub is_require_approval : Outcome → Bool
is_require_approval require_approval = true
is_require_approval _ = false

-- `str(outcome)`.
abbrev pub outcome_text : Outcome → String
outcome_text allow = "ALLOW"
outcome_text deny = "DENY"
outcome_text require_approval = "REQUIRE_APPROVAL"

pub record Action : Type 0 where
  pub kind : Kind
  pub relation : String

abbrev pub read : Action
read = record { kind = Kind.read; relation = "viewer" }

abbrev pub edit : Action
edit = record { kind = Kind.act; relation = "editor" }

abbrev pub invoke : Action
invoke = record { kind = Kind.act; relation = "can_invoke" }

abbrev pub remember : Action
remember = record { kind = Kind.remember; relation = "viewer" }

abbrev pub read_memory : Action
read_memory = record { kind = Kind.read; relation = "viewer" }

pub record Decision : Type 0 where
  pub outcome : Outcome
  pub reason : String
  pub chain : PrincipalChain
  pub resource : String
  pub action : Action
  pub timestamp : ℤ
  pub engine_latency_ms : ℕ
  pub decision_id : String
  pub resources : List String

pub record Verdict : Type 0 where
  pub outcome : Outcome
  pub reason : String

abbrev pub policy_allowed : Verdict
policy_allowed = record { outcome = allow; reason = "policy_allowed" }

abbrev pub severity : Outcome → ℕ
severity allow = 0
severity require_approval = 1
severity deny = 2

unfoldable pub most_restrictive : Verdict → Verdict → Verdict
most_restrictive a b = if ltb (severity a.outcome) (severity b.outcome) then b else a

pub record DecisionContext : Type 0 where
  pub approval_id : Option String

abbrev pub no_context : DecisionContext
no_context = record { approval_id = none }

-- `DecisionPolicy.evaluate`, which may raise. The tool arguments are opaque.
abbrev pub Policy : Type 0 → Type 0
Policy Args = PrincipalChain → Action → String → Args → DecisionContext → Result Verdict
