-- ===== src/Audit/Chain/Journal.antt =====
-- audit/postgres.py, PostgresAuditSink: the rows that `record` appends under its lock, as the list in
-- `seq` order, and what `_chain_row` makes of them. The database chooses the `seq`.
use headofcontext.Prelude.{
  ◌≡◌, refl, ap, ℕ, String, Bool, true, none, some, List, [], ◌∷◌, ◌++◌, lookup, arith, eq_refl,
}
use headofcontext.Core.Errors.{ok}
use headofcontext.Core.Events.{AuditEvent}
use headofcontext.Audit.Payload.{Json, ReadsBack, event_kind_text, asdict, canonical_json}
use headofcontext.Audit.Payload.Roundtrip.{event_from_payload-canonical_json}
use headofcontext.Audit.Chain.{
  ChainRow, StoredAuditEvent, genesis_hash, compute_hash, columns_differ, chain, head_of,
  record_stored, verify_links, verify_chain, verify_rows,
}
use headofcontext.Audit.Chain.Laws
use headofcontext.Audit.Chain.Laws.{last_hash, intact, verify_rows-intact}

-- The reporting columns that `_chain_row` puts in a row.
unfoldable pub columns_of : AuditEvent → List (String × String)
columns_of e =
    ("kind", event_kind_text e.kind)
    ∷ ("subject", e.subject)
    ∷ ("actor", e.actor)
    ∷ ("action", e.action)
    ∷ ("resource", e.resource)
    ∷ ("outcome", e.outcome)
    ∷ ("reason", e.reason)
    ∷ []

module _ (json : Json) (sha256 : String → String) where
  -- `record`: the row after the last one, or after the genesis hash.
  unfoldable pub record_row : ℕ → AuditEvent → List ChainRow → List ChainRow
  record_row seq event rows =
      let prev_hash : String = last_hash genesis_hash rows in
      rows
      ++ record {
        seq = seq;
        payload = canonical_json json event;
        prev_hash = prev_hash;
        stored_hash = compute_hash json sha256 prev_hash event;
        columns = some (columns_of event);
      }
        ∷ []

  -- Any sequence of calls of `record`.
  unfoldable pub record_rows : List (ℕ × AuditEvent) → List ChainRow → List ChainRow
  unfolding record_row
  record_rows [] rows = rows
  record_rows ((seq, event) ∷ later) rows = record_rows later (record_row seq event rows)

  abbrev pub AllReadBack : List (ℕ × AuditEvent) → Type 0
  AllReadBack [] = Unit
  AllReadBack ((seq, event) ∷ later) = ReadsBack json event × AllReadBack later

  columns-agree :
      (e : AuditEvent)
      → ReadsBack json e
      → columns_differ json sha256 (columns_of e) (asdict json e) ≡ Bool.false
  unfolding columns_of asdict lookup
  columns-agree e back = simp (back.str_text, eq_refl)

  Linked-append :
      (prev : String) (rows : List ChainRow) (row : ChainRow)
      → Laws.Linked json sha256 prev rows
      → row.prev_hash ≡ last_hash prev rows
      → Laws.Holds json sha256 row
      → Laws.Linked json sha256 prev (rows ++ row ∷ [])
  Linked-append prev [] row linked same holds = (same, holds, tt)
  Linked-append prev (r ∷ rest) row (named, held, linked) same holds =
      (named, held, Linked-append r.stored_hash rest row linked same holds)

  record_row-Holds :
      (seq : ℕ) (event : AuditEvent) (prev_hash : String)
      → ReadsBack json event
      → Laws.Holds json sha256 (record {
        seq = seq;
        payload = canonical_json json event;
        prev_hash = prev_hash;
        stored_hash = compute_hash json sha256 prev_hash event;
        columns = some (columns_of event);
      })
  unfolding canonical_json
  record_row-Holds seq event prev_hash back = (
    event,
    event_from_payload-canonical_json json event back,
    refl,
    rw back.loads_dumps (ap ok (columns-agree event back)),
  )

  record_row-Linked :
      (seq : ℕ) (event : AuditEvent) (rows : List ChainRow)
      → ReadsBack json event
      → Laws.Linked json sha256 genesis_hash rows
      → Laws.Linked json sha256 genesis_hash (record_row seq event rows)
  unfolding record_row
  record_row-Linked seq event rows back linked =
      Linked-append genesis_hash rows _ linked refl
        (record_row-Holds seq event (last_hash genesis_hash rows) back)

  record_rows-Linked :
      (events : List (ℕ × AuditEvent)) (rows : List ChainRow)
      → AllReadBack events
      → Laws.Linked json sha256 genesis_hash rows
      → Laws.Linked json sha256 genesis_hash (record_rows events rows)
  unfolding record_rows
  record_rows-Linked [] rows back linked = linked
  record_rows-Linked ((seq, event) ∷ later) rows (back, rest) linked =
      record_rows-Linked later (record_row seq event rows) rest
        (record_row-Linked seq event rows back linked)

  -- Whatever events the sink records into an empty table, if the JSON library reads each of them back,
  -- `verify_rows` finds the table intact from the genesis hash: all rows checked, no break.
  pub verify_rows-record_rows :
      (events : List (ℕ × AuditEvent))
      → AllReadBack events
      → verify_rows json sha256 genesis_hash (record_rows events [])
        ≡ ok (intact json sha256 genesis_hash none none 0 genesis_hash (record_rows events []))
  verify_rows-record_rows events back =
      verify_rows-intact json sha256 genesis_hash (record_rows events [])
        (record_rows-Linked events [] back tt)

  verify_links-append :
      (prev : String) (events : List StoredAuditEvent) (event : AuditEvent)
      → verify_links json sha256 prev events ≡ true
      → verify_links json sha256 prev
          (events ++ chain json sha256 event (head_of json sha256 prev events) ∷ [])
        ≡ true
  unfolding verify_links
  verify_links-append prev [] event h = simp eq_refl
  verify_links-append prev (s ∷ rest) event h =
      ground (arith, verify_links-append s.hash rest event)

  -- A chain that verifies still verifies after the in-memory sink has recorded one more event.
  pub verify_chain-record_stored :
      (event : AuditEvent) (events : List StoredAuditEvent)
      → verify_chain json sha256 events ≡ true
      → verify_chain json sha256 (record_stored json sha256 event events) ≡ true
  unfolding record_stored
  verify_chain-record_stored event events h = verify_links-append genesis_hash events event h
