-- ===== src/Audit/Payload/Roundtrip.antt =====
-- An event is read back from its canonical JSON as it was.
use headofcontext.Prelude.{◌≡◌, refl, String, Option, none, some, lookup}
use headofcontext.Core.Errors.{ok}
use headofcontext.Core.Events.{EventKind, AuditEvent, decision}
use headofcontext.Audit.Payload.{
  Json, ReadsBack, event_kind_text, event_kinds, kind_among, as_optional, of_optional, asdict,
  canonical_json, event_of_fields, event_from_payload,
}

kind_among-text : (k : EventKind) → kind_among event_kinds (event_kind_text k) ≡ ok k
unfolding event_kind_text
kind_among-text decision = refl
kind_among-text _ = refl

as_optional-of_optional : (o : Option String) → as_optional (some (of_optional o)) ≡ ok o
as_optional-of_optional none = refl
as_optional-of_optional (some s) = refl

module _ (json : Json) (e : AuditEvent) (faithful : ReadsBack json e) where
  event_of_fields-asdict : event_of_fields json (asdict json e) ≡ ok e
  unfolding event_of_fields asdict lookup
  event_of_fields-asdict = simp (
    kind_among-text, faithful.fromisoformat_isoformat, faithful.int_number, faithful.float_real,
    as_optional-of_optional,
  )

  -- If the JSON library reads back the event's object as it wrote it, and the conversions its time
  -- and its numbers, the event that is read from the event's canonical JSON is that event.
  pub event_from_payload-canonical_json : event_from_payload json (canonical_json json e) ≡ ok e
  unfolding event_from_payload canonical_json
  event_from_payload-canonical_json = rw faithful.loads_dumps event_of_fields-asdict
