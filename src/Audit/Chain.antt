-- ===== src/Audit/Chain.antt =====
-- core/events.py, compute_hash and StoredAuditEvent; audit/memory.py, InMemoryAuditSink; and
-- audit/chain.py, verify_rows. `sha256`, a parameter, gives the hex digest of a text.
pub mod Laws
pub mod Breaks
pub mod Journal
pub mod Tampering
use headofcontext.Prelude.{
  ℕ, suc, String, Bool, true, false, not, ◌&&◌, ◌||◌, Option, none, some, List, [], ◌∷◌, ◌++◌, any,
  is_none, or_default, lookup, Dict, nat_eq, ◌==◌, if◌then◌else◌,
}
use headofcontext.Core.Errors.{Result, ok, err, Exception, ◌>>=◌}
use headofcontext.Audit.Payload.{Json, Scalar, null, canonical_json, event_from_payload}
use headofcontext.Core.Events.{AuditEvent, ◌+++◌}

abbrev pub genesis_hash : String
genesis_hash = "0000000000000000000000000000000000000000000000000000000000000000"

pub record StoredAuditEvent : Type 0 where
  pub event : AuditEvent
  pub prev_hash : String
  pub hash : String

-- The fifth element of a row is optional.
pub record ChainRow : Type 0 where
  pub seq : ℕ
  pub payload : String
  pub prev_hash : String
  pub stored_hash : String
  pub columns : Option (List (String × String))

pub record ChainReport : Type 0 where
  pub is_ok : Bool
  pub checked : ℕ
  pub first_seq : Option ℕ
  pub last_seq : Option ℕ
  pub anchor : Option String
  pub head : Option String
  pub break_at : Option ℕ
  pub detail : String

module _ (json : Json) (sha256 : String → String) where
  abbrev pub compute_hash : String → AuditEvent → String
  compute_hash prev_hash event = sha256 (prev_hash +++ canonical_json json event)

  -- `StoredAuditEvent.chain`.
  abbrev pub chain : AuditEvent → String → StoredAuditEvent
  chain event prev_hash = record {
    event = event;
    prev_hash = prev_hash;
    hash = compute_hash prev_hash event;
  }

  -- `self._events[-1].hash if self._events else prev`.
  abbrev pub head_of : String → List StoredAuditEvent → String
  head_of prev [] = prev
  head_of prev (s ∷ rest) = head_of s.hash rest

  -- `InMemoryAuditSink.record`.
  unfoldable pub record_stored : AuditEvent → List StoredAuditEvent → List StoredAuditEvent
  record_stored event events = events ++ chain event (head_of genesis_hash events) ∷ []

  -- The loop of `verify_chain`, and the method.
  unfoldable pub verify_links : String → List StoredAuditEvent → Bool
  verify_links prev [] = true
  verify_links prev (s ∷ rest) =
      let later = verify_links s.hash rest in
      if not (s.prev_hash == prev) || not (s.hash == compute_hash prev s.event)
      then false
      else later

  abbrev pub verify_chain : List StoredAuditEvent → Bool
  verify_chain events = verify_links genesis_hash events

  -- `str(payload.get(name))`.
  abbrev pub shown : Option Scalar → String
  shown none = json.str null
  shown (some v) = json.str v

  -- `_columns_differ`. A column is its name and the text of its value.
  abbrev pub columns_differ : List (String × String) → Dict Scalar → Bool
  columns_differ columns payload =
      any (λ (column : String × String). not (shown (lookup column.0 payload) == column.1)) columns

  -- `columns is not None and _columns_differ(columns, json.loads(payload))`.
  abbrev pub columns_mismatch : Option (List (String × String)) → String → Result Bool
  columns_mismatch none payload = ok false
  columns_mismatch (some columns) payload = do
    fields ← json.loads payload
    ok (columns_differ columns fields)

  abbrev pub broken : ℕ → ℕ → String → Option String → ℕ → String → ChainReport
  broken checked first anchor head seq detail = record {
    is_ok = false;
    checked = checked;
    first_seq = some first;
    last_seq = some seq;
    anchor = some anchor;
    head = head;
    break_at = some seq;
    detail = detail;
  }

  -- The test of the columns, in the place after the hash.
  abbrev pub judge_columns : ChainReport → Result Bool → Result (Option ChainReport)
  judge_columns report (err e) = err e
  judge_columns report (ok true) = ok (some report)
  judge_columns report (ok false) = ok none

  -- The tests of a row that follows its predecessor, on what its payload reads as.
  unfoldable pub judge :
      (String → ChainReport) → ChainRow → Result AuditEvent → Result (Option ChainReport)
  judge report row (err e) = err e
  judge report row (ok event) =
      if not (compute_hash row.prev_hash event == row.stored_hash)
      then ok (some (report "hash mismatch"))
      else judge_columns (report "column mismatch") (columns_mismatch row.columns row.payload)

  -- One row, with the first row's seq if there was one, the count and the hash before it: the
  -- report of a break, or none.
  unfoldable pub check_row : String → Option ℕ → ℕ → String → ChainRow → Result (Option ChainReport)
  unfolding judge
  check_row anchor first checked prev row =
      if is_none first && not (row.prev_hash == anchor)
      then ok (some (broken 0 row.seq anchor none row.seq "anchor mismatch"))
      else if not (row.prev_hash == prev)
      then ok (
          some (
            broken checked (or_default first row.seq) anchor (some prev) row.seq
              "prev_hash mismatch"))
      else judge (broken checked (or_default first row.seq) anchor (some prev) row.seq) row
          (event_from_payload json row.payload)

  -- What a row leads to: an exception, the report of a break, or the rows after it.
  abbrev pub next_row : Result ChainReport → Result (Option ChainReport) → Result ChainReport
  next_row later (err e) = err e
  next_row later (ok (some report)) = ok report
  next_row later (ok none) = later

  -- The loop of `verify_rows`.
  unfoldable pub verify_from :
      String → Option ℕ → Option ℕ → ℕ → String → List ChainRow → Result ChainReport
  verify_from anchor first last checked prev [] = ok (record {
    is_ok = true;
    checked = checked;
    first_seq = first;
    last_seq = last;
    anchor = some anchor;
    head = if nat_eq checked 0 then none else some prev;
    break_at = none;
    detail = "";
  })
  verify_from anchor first last checked prev (row ∷ rest) =
      let later =
        verify_from anchor (some (or_default first row.seq)) (some row.seq) (suc checked)
          row.stored_hash rest in
      next_row later (check_row anchor first checked prev row)

  unfoldable pub verify_rows : String → List ChainRow → Result ChainReport
  unfolding verify_from check_row
  verify_rows anchor rows = verify_from anchor none none 0 anchor rows
