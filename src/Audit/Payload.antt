-- ===== src/Audit/Payload.antt =====
-- core/events.py, AuditEvent.canonical_json, and audit/chain.py, event_from_payload: an event as a
-- JSON object and back. The JSON library and the conversions of Python are parameters.
pub mod Roundtrip
use headofcontext.Prelude.{
  ℕ, ◌≡◌, String, Option, none, some, List, [], ◌∷◌, lookup, Dict, ◌==◌, if◌then◌else◌,
}
use headofcontext.Prelude.Int.{ℤ}
use headofcontext.Core.Errors.{other, Result, ok, err, ◌>>=◌}
use headofcontext.Core.Events.{
  EventKind, decision, token_issued, token_delegated, token_revoked, memory_written, memory_read,
  approval_requested, approval_resolved, approval_consumed, approval_notify_failed, mandate_created,
  mandate_revoked, mandate_expired, read_filtered, tools_listed, connector_synced, AuditEvent,
}

-- A value of a JSON object that is no object or list; `real` is a float, in the unit of a latency.
pub data Scalar : Type 0 where
  null : Scalar
  text : String → Scalar
  number real : ℕ → Scalar

-- `json.dumps` with sorted keys and `json.loads`, `datetime.isoformat` and `fromisoformat`, and
-- Python's `int`, `float` and `str` on a scalar.
pub record Json : Type 0 where
  pub dumps : Dict Scalar → String
  pub loads : String → Result (Dict Scalar)
  pub isoformat : ℤ → String
  pub fromisoformat : String → Result ℤ
  pub int : Scalar → Result ℕ
  pub float : Scalar → Result ℕ
  pub str : Scalar → String

-- `str(kind)`, and `EventKind(text)`, which raises for any other text.
unfoldable pub event_kind_text : EventKind → String
event_kind_text decision = "decision"
event_kind_text token_issued = "token_issued"
event_kind_text token_delegated = "token_delegated"
event_kind_text token_revoked = "token_revoked"
event_kind_text memory_written = "memory_written"
event_kind_text memory_read = "memory_read"
event_kind_text approval_requested = "approval_requested"
event_kind_text approval_resolved = "approval_resolved"
event_kind_text approval_consumed = "approval_consumed"
event_kind_text approval_notify_failed = "approval_notify_failed"
event_kind_text mandate_created = "mandate_created"
event_kind_text mandate_revoked = "mandate_revoked"
event_kind_text mandate_expired = "mandate_expired"
event_kind_text read_filtered = "read_filtered"
event_kind_text tools_listed = "tools_listed"
event_kind_text connector_synced = "connector_synced"

abbrev pub event_kinds : List EventKind
event_kinds =
    decision ∷ token_issued ∷ token_delegated ∷ token_revoked ∷ memory_written ∷ memory_read
    ∷ approval_requested ∷ approval_resolved ∷ approval_consumed ∷ approval_notify_failed
    ∷ mandate_created ∷ mandate_revoked ∷ mandate_expired ∷ read_filtered ∷ tools_listed
    ∷ connector_synced ∷ []

abbrev pub kind_among : List EventKind → String → Result EventKind
kind_among [] s = err other
kind_among (k ∷ rest) s = if event_kind_text k == s then ok k else kind_among rest s

-- A text field; the code takes what the payload holds there, and another scalar, which no event
-- has there, is read as an error.
abbrev pub as_text : Scalar → Result String
as_text (text s) = ok s
as_text null = err other
as_text (number n) = err other
as_text (real n) = err other

-- An optional text field, as `data.get(name)` gives it.
abbrev pub as_optional : Option Scalar → Result (Option String)
as_optional none = ok none
as_optional (some null) = ok none
as_optional (some (text s)) = ok (some s)
as_optional (some (number n)) = err other
as_optional (some (real n)) = err other

abbrev pub of_optional : Option String → Scalar
of_optional none = null
of_optional (some s) = text s

-- `data[name]`, which raises if it is missing.
abbrev pub required : Option Scalar → Result Scalar
required none = err other
required (some v) = ok v

module _ (json : Json) where
  -- `asdict(self)`, in the order of the sorted keys.
  unfoldable pub asdict : AuditEvent → Dict Scalar
  asdict e =
      ("action", text e.action)
      ∷ ("actor", text e.actor)
      ∷ ("args_hash", of_optional e.args_hash)
      ∷ ("decision_id", of_optional e.decision_id)
      ∷ ("delegation_depth", number e.delegation_depth)
      ∷ ("engine_latency_ms", real e.engine_latency_ms)
      ∷ ("event_id", text e.event_id)
      ∷ ("kind", text (event_kind_text e.kind))
      ∷ ("outcome", text e.outcome)
      ∷ ("reason", text e.reason)
      ∷ ("resource", text e.resource)
      ∷ ("subject", text e.subject)
      ∷ ("timestamp", text (json.isoformat e.timestamp))
      ∷ ("token_fingerprint", of_optional e.token_fingerprint)
      ∷ []

  unfoldable pub canonical_json : AuditEvent → String
  unfolding asdict
  canonical_json e = json.dumps (asdict e)

  -- What the libraries document, for one event: its object, its time and its numbers are read
  -- back, and a text shows as itself.
  pub record ReadsBack (e : AuditEvent) : Type 0 where
    pub loads_dumps : json.loads (json.dumps (asdict e)) ≡ ok (asdict e)
    pub fromisoformat_isoformat : json.fromisoformat (json.isoformat e.timestamp) ≡ ok e.timestamp
    pub int_number : json.int (number e.delegation_depth) ≡ ok e.delegation_depth
    pub str_text : (s : String) → json.str (text s) ≡ s
    pub float_real : json.float (real e.engine_latency_ms) ≡ ok e.engine_latency_ms

  abbrev pub text_at : String → Dict Scalar → Result String
  text_at name fields = do v ← required (lookup name fields); as_text v

  abbrev pub kind_at : Dict Scalar → Result EventKind
  kind_at fields = do s ← text_at "kind" fields; kind_among event_kinds s

  abbrev pub time_at : Dict Scalar → Result ℤ
  time_at fields = do s ← text_at "timestamp" fields; json.fromisoformat s

  abbrev pub depth_at : Dict Scalar → Result ℕ
  depth_at fields = do v ← required (lookup "delegation_depth" fields); json.int v

  abbrev pub latency_at : Dict Scalar → Result ℕ
  latency_at fields = do v ← required (lookup "engine_latency_ms" fields); json.float v

  unfoldable pub event_of_fields : Dict Scalar → Result AuditEvent
  event_of_fields fields = do
    kind ← kind_at fields
    timestamp ← time_at fields
    subject ← text_at "subject" fields
    actor ← text_at "actor" fields
    delegation_depth ← depth_at fields
    action ← text_at "action" fields
    resource ← text_at "resource" fields
    outcome ← text_at "outcome" fields
    reason ← text_at "reason" fields
    engine_latency_ms ← latency_at fields
    token_fingerprint ← as_optional (lookup "token_fingerprint" fields)
    args_hash ← as_optional (lookup "args_hash" fields)
    decision_id ← as_optional (lookup "decision_id" fields)
    event_id ← text_at "event_id" fields
    ok (record {
      kind = kind;
      timestamp = timestamp;
      subject = subject;
      actor = actor;
      delegation_depth = delegation_depth;
      action = action;
      resource = resource;
      outcome = outcome;
      reason = reason;
      engine_latency_ms = engine_latency_ms;
      token_fingerprint = token_fingerprint;
      args_hash = args_hash;
      decision_id = decision_id;
      event_id = event_id;
    })

  unfoldable pub event_from_payload : String → Result AuditEvent
  unfolding event_of_fields
  event_from_payload payload = do fields ← json.loads payload; event_of_fields fields
