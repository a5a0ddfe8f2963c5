-- ===== src/Audit/Chain/Laws.antt =====
-- What `verify_rows` accepts, and where it finds a break.
use headofcontext.Prelude.{
  ◌≡◌, refl, ◌∙◌, ℕ, suc, ◌+◌, String, true, false, Option, none, some, List, [], ◌∷◌, length,
  is_none, or_default, nat_eq, arith, if◌then◌else◌, eq_iff,
}
use headofcontext.Core.Errors.{Result, ok, err}
use headofcontext.Core.Events.{AuditEvent}
use headofcontext.Audit.Payload.{Json, event_from_payload}
use headofcontext.Audit.Chain.{
  ChainRow, ChainReport, compute_hash, columns_mismatch, broken, judge, check_row, verify_from,
  verify_rows,
}

-- The hash that the rows end with.
abbrev pub last_hash : String → List ChainRow → String
last_hash prev [] = prev
last_hash prev (row ∷ rest) = last_hash row.stored_hash rest

abbrev pub last_seq_of : Option ℕ → List ChainRow → Option ℕ
last_seq_of last [] = last
last_seq_of last (row ∷ rest) = last_seq_of (some row.seq) rest

abbrev pub first_or_seq : Option ℕ → List ChainRow → Option ℕ
first_or_seq first [] = first
first_or_seq first (row ∷ rest) = some (or_default first row.seq)

first_or_seq-some : (x : ℕ) (rows : List ChainRow) → first_or_seq (some x) rows ≡ some x
first_or_seq-some x [] = refl
first_or_seq-some x (row ∷ rest) = refl

module _ (json : Json) (sha256 : String → String) where
  -- The row holds by itself: its payload reads as an event that hashes, after its own `prev_hash`,
  -- to the stored hash, and its columns agree with the payload.
  abbrev pub Holds : ChainRow → Type 0
  Holds row =
      (event : AuditEvent) × (event_from_payload json row.payload ≡ ok event)
      × (compute_hash json sha256 row.prev_hash event ≡ row.stored_hash)
      × (columns_mismatch json sha256 row.columns row.payload ≡ ok false)

  -- The rows hold, each after the hash of the one before.
  abbrev pub Linked : String → List ChainRow → Type 0
  Linked prev [] = Unit
  Linked prev (row ∷ rest) = (row.prev_hash ≡ prev) × Holds row × Linked row.stored_hash rest

  judge-none :
      (report : String → ChainReport) (row : ChainRow) (r : Result AuditEvent)
      → judge json sha256 report row r ≡ ok none
      → (event : AuditEvent) × (r ≡ ok event)
        × (compute_hash json sha256 row.prev_hash event ≡ row.stored_hash)
        × (columns_mismatch json sha256 row.columns row.payload ≡ ok false)
  unfolding judge
  judge-none report row (err e) h = cc
  judge-none report row (ok event) h = (
    event,
    refl,
    ground (arith, eq_iff (compute_hash json sha256 row.prev_hash event) row.stored_hash),
    ground arith,
  )

  pub check_row-none :
      (anchor prev : String) (first : Option ℕ) (checked : ℕ) (row : ChainRow)
      → check_row json sha256 anchor first checked prev row ≡ ok none
      → (row.prev_hash ≡ prev) × Holds row
  unfolding check_row
  check_row-none anchor prev first checked row h = (
    ground (arith, eq_iff row.prev_hash prev),
    judge-none (broken json sha256 checked (or_default first row.seq) anchor (some prev) row.seq)
        row (event_from_payload json row.payload) (ground arith),
  )

  pub check_row-Holds :
      (anchor prev : String) (first : Option ℕ) (checked : ℕ) (row : ChainRow)
      → (is_none first ≡ true → prev ≡ anchor)
      → row.prev_hash ≡ prev
      → Holds row
      → check_row json sha256 anchor first checked prev row ≡ ok none
  unfolding check_row
  check_row-Holds anchor prev first checked row start same (event, parsed, hashed, columns) =
      ground (
        arith,
        eq_iff row.prev_hash anchor,
        eq_iff row.prev_hash prev,
        eq_iff (compute_hash json sha256 row.prev_hash event) row.stored_hash,
      )

  -- The report on rows without a break.
  abbrev pub intact : String → Option ℕ → Option ℕ → ℕ → String → List ChainRow → ChainReport
  intact anchor first last checked prev rows = record {
    is_ok = true;
    checked = checked + length rows;
    first_seq = first_or_seq first rows;
    last_seq = last_seq_of last rows;
    anchor = some anchor;
    head = if nat_eq (checked + length rows) 0 then none else some (last_hash prev rows);
    break_at = none;
    detail = "";
  }

  verify_from-intact :
      (anchor prev : String) (first last : Option ℕ) (checked : ℕ) (rows : List ChainRow)
      → (is_none first ≡ true → prev ≡ anchor)
      → Linked prev rows
      → verify_from json sha256 anchor first last checked prev rows
        ≡ ok (intact anchor first last checked prev rows)
  unfolding verify_from
  verify_from-intact anchor prev first last checked [] start linked = ground arith
  verify_from-intact anchor prev first last checked (row ∷ rest) start (same, holds, linked) =
      rw (check_row-Holds anchor prev first checked row start same holds) (
        verify_from-intact anchor row.stored_hash (some (or_default first row.seq)) (some row.seq)
          (suc checked) rest (λ h. cc) linked
        ∙ ground (arith, first_or_seq-some (or_default first row.seq) rest))

  -- Rows that are linked from the anchor are reported as intact, with their count, the first and the
  -- last seq, and the last hash as the head, if there are any.
  pub verify_rows-intact :
      (anchor : String) (rows : List ChainRow)
      → Linked anchor rows
      → verify_rows json sha256 anchor rows ≡ ok (intact anchor none none 0 anchor rows)
  unfolding verify_rows
  verify_rows-intact anchor rows linked =
      verify_from-intact anchor anchor none none 0 rows (λ h. refl) linked
