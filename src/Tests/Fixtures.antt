-- ===== src/Tests/Fixtures.antt =====
-- Constants: an engine that knows two users, a policy on one tool, chains and requests.
use headofcontext.Prelude.{
  ℕ, zero, suc, String, Bool, ◌&&◌, ◌||◌, none, some, List, [], ◌∷◌, ◌==◌, map,
}
use headofcontext.Prelude.Int.{ℤ, pos}
use headofcontext.Core.Errors.{other, Result, ok, err}
use headofcontext.Core.Capability.{Capability, Kind}
use headofcontext.Core.Scope.{Scope, scope_eq, is_subset_of}
use headofcontext.Core.Chain.{
  PrincipalChain, make, post_init, make_delegation, check_delegation, check_links, delegate,
  root_scope,
}
use headofcontext.Core.Refs.{
  is_resource_pattern, is_ref, id_char, validate_ref, validate_resource_pattern,
}
use headofcontext.Core.Capability
use headofcontext.Core.Scope
use headofcontext.Core.Decision.{Decision, Outcome, Action}
use headofcontext.Core.Decider.{
  decide, decide_all, evaluate, evaluate_all, conclude, scope_covers, scope_excludes, validate_all,
  batch, settle_batch, first_or, after_check, after_batch, policy_verdict,
}
use headofcontext.Core.Events.{◌+++◌, from_decision}
use headofcontext.Actions.Policies.{RequireApproval, require_approval_evaluate, is_outside, matches}
use headofcontext.World
use headofcontext.World.{World, Env, record_event, ◌>>=◌}
use headofcontext.Prelude.{lookup, insert, true, false}
use headofcontext.Prelude.Int.{◌+ℤ◌, ◌-ℤ◌}
use headofcontext.Actions.Policies.{composite_evaluate, ask, ask_when}
use headofcontext.Actions.Request.{ApprovalRequest, ApprovalStatus}
use headofcontext.Actions.Store.{create, get, update, transition, consume}
use headofcontext.Actions.Resolve.{
  require_user, approver_refusal, refuse_approver, authorize_approver, get_request, expire_overdue,
  resolve_request,
}
use headofcontext.Actions.Gate.{
  Settings, event, notify, park, gate, resolve, deny_call, mismatch, expire_if_needed, after_claim,
  claim, answer_call, redeem_found, redeem_request, redeem,
}
use headofcontext.Tokens.Mandate.{Mandate, active}
use headofcontext.Tokens.MandateStore
use headofcontext.Tokens.Mandates
use headofcontext.Tokens.Mandates.{
  MandateSettings, issue, get_fresh, fresh, fresh_active, settle, check_mandate, require_binding,
  revoke,
}
use headofcontext.Core.Chain.{root}
use headofcontext.Tokens.Service.{TokenSettings, issue_token, token_event, revoke_id, take_id}

-- Fresh ids: as many letters as there were readings.
abbrev pub letters : ℕ → String
letters zero = "i"
letters (suc n) = "i" +++ letters n

-- The relations of a small organisation.
abbrev pub related : String → String → String → Bool
related subject relation object =
    (subject == "user:alice"
      && (object == "doc:a" || object == "doc:b" || object == "tool:mail" || object == "agent:bot"))
    || (subject == "user:carol" && relation == "approver" && object == "tool:mail")

abbrev pub engine_check : World → String → String → String → Result Bool
engine_check w subject relation object = ok (related subject relation object)

abbrev pub engine_batch : World → String → List (String × String) → Result (List Bool)
engine_batch w subject items = ok (map (λ (i : String × String). related subject i.0 i.1) items)

abbrev pub mail_tools : List Capability
mail_tools = record { kind = Kind.act; resource = "tool:mail" } ∷ []

abbrev pub mail_policy : RequireApproval String
mail_policy = record { patterns = mail_tools; when = none; reason = "approval_required" }

-- One microsecond between two readings of the clock.
abbrev pub env : Env String
env = record {
  clock = pos;
  uuid = letters;
  elapsed_ms = λ n. 1;
  refuses = λ w e. none;
  check = engine_check;
  batch_check = engine_batch;
  policy = some (require_approval_evaluate mail_policy);
  no_args = "{}";
  hash_json = λ a. "#" +++ a;
}

-- The same, with an engine that does not answer.
abbrev pub broken_env : Env String
broken_env = record env { check = λ w s r o. err other; batch_check = λ w s i. err other }

abbrev pub start : World
start = World.empty

abbrev pub docs : Scope
docs = record { capabilities = record { kind = Kind.read; resource = "doc:*" } ∷ [] }

abbrev pub doc_a : Scope
doc_a = record { capabilities = record { kind = Kind.read; resource = "doc:a" } ∷ [] }

abbrev pub mail : Scope
mail = record { capabilities = record { kind = Kind.act; resource = "tool:mail" } ∷ [] }

abbrev pub chain_of : Scope → PrincipalChain
chain_of scope = record {
  subject = "user:alice";
  actor = "agent:bot";
  delegation = [];
  scope = scope;
  recorded_root = none;
}

abbrev pub reader : PrincipalChain
reader = chain_of docs

abbrev pub mailer : PrincipalChain
mailer = chain_of mail

-- What a decision on a call by the reader or the mailer looks like.
abbrev pub decided :
    Outcome → String → PrincipalChain → String → Action → ℤ → ℕ → String → List String → Decision
decided outcome reason chain resource action timestamp ms decision_id resources = record {
  outcome = outcome;
  reason = reason;
  chain = chain;
  resource = resource;
  action = action;
  timestamp = timestamp;
  engine_latency_ms = ms;
  decision_id = decision_id;
  resources = resources;
}

-- Unfolding this unfolds the decision path.
unfoldable pub path_open : ℕ
unfolding decide decide_all evaluate evaluate_all conclude scope_covers scope_excludes validate_all
    batch settle_batch first_or after_check after_batch policy_verdict is_outside matches
    require_approval_evaluate Capability.make Capability.covers Scope.covers is_resource_pattern
    is_ref id_char validate_ref validate_resource_pattern record_event from_decision ◌>>=◌
path_open = 0

-- Unfolding this unfolds the constructors of chains, too.
unfoldable pub chain_open : ℕ
unfolding path_open make post_init make_delegation check_delegation check_links delegate scope_eq
    is_subset_of root_scope
chain_open = 0

-- Requests for the tool, by the mailer.
abbrev pub request : ApprovalStatus → ApprovalRequest
request status = record {
  request_id = "r1";
  subject = "user:alice";
  actor = "agent:bot";
  delegation_depth = 0;
  tool = "tool:mail";
  args_hash = "#{}";
  decision_id = "d1";
  created_at = pos 0;
  expires_at = pos 100;
  status = status;
  resolved_by = none;
  resolved_at = none;
  resolution_reason = none;
  consumed_at = none;
  approval_reason = "approval_required";
}

abbrev pub with_request : ApprovalStatus → World
with_request status = record start { approvals = ("r1", request status) ∷ [] }

abbrev pub settings : Settings
settings = record { ttl = pos 50; allow_self_approval = false; channels = [] }

-- Unfolding this unfolds the gate.
unfoldable pub gate_open : ℕ
unfolding path_open composite_evaluate redeem redeem_request redeem_found expire_if_needed mismatch
    answer_call claim consume transition after_claim deny_call event get resolve get_request
    authorize_approver approver_refusal refuse_approver require_user resolve_request expire_overdue
    update lookup insert ask_when ask ◌-ℤ◌ ◌+ℤ◌ gate park create notify
gate_open = 0

-- A token service that signs by writing the parts down, and a mandate of the user for her agent.
abbrev pub token_settings : TokenSettings
token_settings = record {
  ttl = pos 1000;
  seal = λ s a c i e m. ok ("token", "block0" ∷ []);
  fingerprint = λ t. "#" +++ t;
  isoformat = λ t. "date";
  outage = λ w. none;
  write_failure = λ w i. none;
}

abbrev pub mandate_settings : MandateSettings
mandate_settings = record { has_engine = true; max_days = 90; default_max_token_ttl = pos 10 }

abbrev pub mandate : Mandate
mandate = record {
  mandate_id = "m1";
  subject = "user:alice";
  agent = "agent:bot";
  scope = docs;
  created_at = pos 0;
  expires_at = pos 500;
  max_token_ttl = pos 10;
  created_by = "user:alice";
  status = active;
  revoked_at = none;
  revocation_reason = none;
}

abbrev pub with_mandate : World
with_mandate = record start { mandates = ("m1", mandate) ∷ [] }

-- Unfolding this unfolds the mandates.
unfoldable pub mandates_open : ℕ
unfolding path_open chain_open issue get_fresh fresh fresh_active settle check_mandate
    require_binding root issue_token token_event revoke revoke_id take_id MandateStore.get
    MandateStore.update lookup insert Mandates.event ◌-ℤ◌ ◌+ℤ◌
mandates_open = 0
