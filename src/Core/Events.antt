-- ===== src/Core/Events.antt =====
-- core/events.py: audit events. An event never carries arguments or content, only a hash.
use Prim.Native.String
use headofcontext.Prelude.{ℕ, String, Option, none, some}
use headofcontext.Prelude.Int.{ℤ}
use headofcontext.Core.Capability.{Kind}
use headofcontext.Core.Chain.{depth}
use headofcontext.Core.Decision.{Decision, outcome_text}

pub data EventKind : Type 0 where
  decision token_issued token_delegated token_revoked memory_written memory_read : EventKind
  approval_requested approval_resolved approval_consumed approval_notify_failed : EventKind
  mandate_created mandate_revoked mandate_expired read_filtered tools_listed : EventKind
  connector_synced : EventKind

pub record AuditEvent : Type 0 where
  pub kind : EventKind
  pub timestamp : ℤ
  pub subject : String
  pub actor : String
  pub delegation_depth : ℕ
  pub action : String
  pub resource : String
  pub outcome : String
  pub reason : String
  pub engine_latency_ms : ℕ
  pub token_fingerprint : Option String
  pub args_hash : Option String
  pub decision_id : Option String
  pub event_id : String

infixr 65 ◌+++◌
-- Texts joined in an f-string.
abbrev pub ◌+++◌ : String → String → String
a +++ b = String.◌++◌ a b

-- `str(kind)`.
abbrev pub kind_text : Kind → String
kind_text Kind.read = "read"
kind_text Kind.act = "act"
kind_text Kind.remember = "remember"

-- `event_id` is the fresh id of the field's default.
unfoldable pub from_decision : Decision → Option String → String → AuditEvent
from_decision d args_hash event_id = record {
  kind = decision;
  timestamp = d.timestamp;
  subject = d.chain.subject;
  actor = d.chain.actor;
  delegation_depth = depth d.chain;
  action = kind_text d.action.kind +++ ":" +++ d.action.relation;
  resource = d.resource;
  outcome = outcome_text d.outcome;
  reason = d.reason;
  engine_latency_ms = d.engine_latency_ms;
  token_fingerprint = none;
  args_hash = args_hash;
  decision_id = some d.decision_id;
  event_id = event_id;
}
