-- ===== src/Tests/Journals.antt =====
-- The journal's hash chain at concrete inputs: two events, and a payload with a key that no event has.
use headofcontext.Prelude.{
  ◌≡◌, refl, ap, sym, ◌∙◌, ℕ, String, true, false, none, some, List, [], ◌∷◌, ◌++◌, lookup, arith,
  Member, subst, Bool-cases, inl, inr, here, there, ◌==◌, if◌then◌else◌,
}
use headofcontext.Prelude.Int.{pos}
use headofcontext.Core.Errors.{ok, err, other}
use headofcontext.Core.Events.{AuditEvent, decision, ◌+++◌}
use headofcontext.Audit.Payload.{
  Json, text, number, real, ReadsBack, event_kind_text, asdict, canonical_json, event_from_payload,
}
use headofcontext.Audit.Payload.Roundtrip.{event_from_payload-canonical_json}
use headofcontext.Audit.Chain.{
  ChainRow, ChainReport, StoredAuditEvent, genesis_hash, record_stored, verify_links, verify_chain,
  verify_rows,
}
use headofcontext.Audit.Chain.Laws.{intact}
use headofcontext.Audit.Chain.Breaks.{Judged, verify_rows-Judged}
use headofcontext.Audit.Chain.Journal.{
  columns_of, record_row, record_rows, verify_rows-record_rows, verify_chain-record_stored,
}
use headofcontext.Audit.Chain.Tampering.{
  NoCollision, Faithful, IsDigest, SameHistory, history_of_head, verify_rows-ReadsAlike,
}

abbrev first_event : AuditEvent
first_event = record {
  kind = decision;
  timestamp = pos 1;
  subject = "user:alice";
  actor = "agent:bot";
  delegation_depth = 0;
  action = "read:viewer";
  resource = "doc:a";
  outcome = "ALLOW";
  reason = "allowed";
  engine_latency_ms = 1;
  token_fingerprint = none;
  args_hash = none;
  decision_id = some "d1";
  event_id = "e1";
}

abbrev second_event : AuditEvent
second_event = record first_event { outcome = "DENY"; reason = "not_related"; event_id = "e2" }

-- A JSON library that knows three texts.
abbrev base : Json
base = record {
  dumps = λ d. elim (lookup "event_id" d) [ some (text s) ↦ s | _ ↦ "" ];
  loads = λ s. err other;
  isoformat = λ t. "1970";
  fromisoformat = λ s. ok (pos 1);
  int = λ s. elim s [ number n ↦ ok n | _ ↦ err other ];
  float = λ s. elim s [ real n ↦ ok n | _ ↦ err other ];
  str = λ s. elim s [ text t ↦ t | _ ↦ "None" ];
}

abbrev json : Json
json = record base {
  loads = λ s.
      if s == "e1"
      then ok (asdict base first_event)
      else if s == "e2"
      then ok (asdict base second_event)
      else if s == "noted"
      then ok (("note", text "added later") ∷ asdict base first_event)
      else err other;
}

abbrev digest : String → String
digest s = s

-- Unfolding this unfolds the journal.
unfoldable journal_open : ℕ
unfolding canonical_json asdict event_kind_text event_from_payload lookup record_rows columns_of
    verify_rows record_stored verify_links
journal_open = 0

first_ReadsBack : ReadsBack json first_event
unfolding journal_open
first_ReadsBack = record {
  loads_dumps = refl;
  fromisoformat_isoformat = refl;
  int_number = refl;
  float_real = refl;
  str_text = λ s. refl;
}

second_ReadsBack : ReadsBack json second_event
unfolding journal_open
second_ReadsBack = record {
  loads_dumps = refl;
  fromisoformat_isoformat = refl;
  int_number = refl;
  float_real = refl;
  str_text = λ s. refl;
}

event_from_payload-canonical_json_example :
    event_from_payload json (canonical_json json second_event) ≡ ok second_event
event_from_payload-canonical_json_example =
    event_from_payload-canonical_json json second_event second_ReadsBack

abbrev both : List (ℕ × AuditEvent)
both = (1, first_event) ∷ (2, second_event) ∷ []

abbrev table : List ChainRow
table = record_rows json digest both []

verify_rows-record_rows_example :
    verify_rows json digest genesis_hash table
    ≡ ok (intact json digest genesis_hash none none 0 genesis_hash table)
verify_rows-record_rows_example =
    verify_rows-record_rows json digest both (first_ReadsBack, (second_ReadsBack, tt))

abbrev one_stored : List StoredAuditEvent
one_stored = record_stored json digest first_event []

one_verifies : verify_chain json digest one_stored ≡ true
unfolding journal_open
one_verifies = refl

verify_chain-record_stored_example :
    verify_chain json digest (record_stored json digest second_event one_stored) ≡ true
verify_chain-record_stored_example =
    verify_chain-record_stored json digest second_event one_stored one_verifies

-- The second row follows a hash that is not the first one's.
abbrev forged : List ChainRow
forged =
    record_row json digest 1 first_event []
    ++ record {
      seq = 2;
      payload = "e2";
      prev_hash = "forged";
      stored_hash = "forgede2";
      columns = none;
    }
      ∷ []

abbrev forged_report : ChainReport
forged_report = record {
  is_ok = false;
  checked = 1;
  first_seq = some 1;
  last_seq = some 2;
  anchor = some genesis_hash;
  head = some (genesis_hash +++ "e1");
  break_at = some 2;
  detail = "prev_hash mismatch";
}

forged_found : verify_rows json digest genesis_hash forged ≡ ok forged_report
unfolding journal_open
forged_found = refl

verify_rows-Judged_example : Judged json digest genesis_hash 0 forged forged_report
verify_rows-Judged_example =
    verify_rows-Judged json digest genesis_hash forged forged_report forged_found

abbrev row : String → ChainRow
row payload = record {
  seq = 1;
  payload = payload;
  prev_hash = genesis_hash;
  stored_hash = genesis_hash +++ "e1";
  columns = none;
}

row_reads : event_from_payload json "e1" ≡ event_from_payload json "noted"
unfolding journal_open
row_reads = refl

verify_rows-ReadsAlike_example :
    verify_rows json digest genesis_hash (row "e1" ∷ [])
    ≡ verify_rows json digest genesis_hash (row "noted" ∷ [])
verify_rows-ReadsAlike_example =
    verify_rows-ReadsAlike json digest genesis_hash (row "e1" ∷ []) (row "noted" ∷ [])
      (refl, refl, refl, row_reads, refl, tt)

only_row : (x r : ChainRow) → Member x (r ∷ []) → r ≡ x
only_row x r (here e) = e
only_row x r (there m) = elim m [ ]

reads_one : event_from_payload json "e1" ≡ ok first_event
unfolding journal_open
reads_one = refl

-- Two different hashes of the right length.
abbrev other_hash : String
other_hash = "ffffffffffffffffffffffffffffffffffffffffffffffffffffffffffffffff"

abbrev short : String → String
short s = if s == genesis_hash +++ "e1" then other_hash else genesis_hash

short-IsDigest : (s : String) → IsDigest json short (short s)
short-IsDigest s = elim (Bool-cases (s == genesis_hash +++ "e1")) [
  | inl known ↦ rw known refl
  | inr unknown ↦ rw unknown refl
]

abbrev short_row : String → ChainRow
short_row payload = record (row payload) { stored_hash = other_hash }

abbrev short_report : ChainReport
short_report = intact json short genesis_hash none none 0 genesis_hash (short_row "e1" ∷ [])

short_verifies : verify_rows json short genesis_hash (short_row "e1" ∷ []) ≡ ok short_report
unfolding journal_open
short_verifies = refl

short_noted_verifies :
    verify_rows json short genesis_hash (short_row "noted" ∷ []) ≡ ok short_report
unfolding journal_open
short_noted_verifies = refl

reads_first :
    (x r : ChainRow) {e : AuditEvent}
    → Member x (r ∷ [])
    → event_from_payload json r.payload ≡ ok first_event
    → event_from_payload json x.payload ≡ ok e
    → first_event ≡ e
reads_first x r m known read =
    let same : r ≡ x = only_row x r m in
    let k : ok first_event ≡ event_from_payload json x.payload =
      sym known ∙ ap (λ (y : ChainRow). event_from_payload json y.payload) same in
    ground (arith, k ∙ read)

noted_reads : event_from_payload json "noted" ≡ ok first_event
unfolding journal_open
noted_reads = refl

rows_back :
    (payload : String)
    → event_from_payload json payload ≡ ok first_event
    → Faithful json short (short_row payload ∷ [])
rows_back payload known x e m read =
    subst (ReadsBack json) (reads_first x (short_row payload) m known read) first_ReadsBack

rows_free : NoCollision json short (short_row "e1" ∷ []) (short_row "noted" ∷ [])
rows_free s t (x, e, mx, px, is) (y, f, my, py, it) h =
    let ex = ap (λ (r : ChainRow). r.prev_hash) (only_row x (short_row "e1") mx) in
    let ey = ap (λ (r : ChainRow). r.prev_hash) (only_row y (short_row "noted") my) in
    let se = reads_first x (short_row "e1") mx reads_one px in
    let sf = reads_first y (short_row "noted") my noted_reads py in
    let hashes : x.prev_hash ≡ y.prev_hash = sym ex ∙ ey in
    is
    ∙ ap (λ p. p +++ canonical_json json e) hashes
    ∙ ap (λ d. y.prev_hash +++ canonical_json json d) (sym se ∙ sf)
    ∙ sym it

history_of_head_example :
    (genesis_hash ≡ genesis_hash)
    × SameHistory json short (short_row "e1" ∷ []) (short_row "noted" ∷ [])
history_of_head_example =
    history_of_head json short genesis_hash genesis_hash (short_row "e1" ∷ [])
      (short_row "noted" ∷ []) short_report short_report short-IsDigest refl refl short_verifies
      refl short_noted_verifies refl refl refl (rows_back "e1" reads_one)
      (rows_back "noted" noted_reads) rows_free
