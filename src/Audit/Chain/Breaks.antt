-- ===== src/Audit/Chain/Breaks.antt =====
-- Where `verify_rows` finds the first break.
use headofcontext.Prelude.{
  ◌≡◌, refl, ap, ◌⊎◌, inl, inr, ℕ, suc, ◌+◌, String, true, false, not, ◌&&◌, Option, none, some,
  List, [], ◌∷◌, ◌++◌, length, is_none, or_default, arith, Bool-cases, ◌==◌,
}
use headofcontext.Core.Errors.{Result, ok, err}
use headofcontext.Core.Events.{AuditEvent}
use headofcontext.Audit.Payload.{Json, event_from_payload}
use headofcontext.Audit.Chain.{
  ChainRow, ChainReport, compute_hash, broken, judge, check_row, next_row, verify_from, verify_rows,
}
use headofcontext.Audit.Chain.Laws
use headofcontext.Audit.Chain.Laws.{last_hash}

module _ (json : Json) (sha256 : String → String) where
  -- Where the rows stop being linked: the rows before `bad` are linked, and `bad` either does not name
  -- their last hash or does not hold by itself.
  pub record BreaksAt (prev : String) (checked : ℕ) (rows : List ChainRow) (r : ChainReport)
      : Type 0 where
    pub good : List ChainRow
    pub bad : ChainRow
    pub rest : List ChainRow
    pub split : rows ≡ good ++ bad ∷ rest
    pub linked : Laws.Linked json sha256 prev good
    pub broken_there : ¬ ((bad.prev_hash ≡ last_hash prev good) × Laws.Holds json sha256 bad)
    pub reported : r.break_at ≡ some bad.seq
    pub counted : r.checked ≡ checked + length good

  judge-some :
      (report : String → ChainReport) (row : ChainRow) (found : ChainReport) (r : Result AuditEvent)
      → judge json sha256 report row r ≡ ok (some found)
      → (detail : String) × (found ≡ report detail)
  unfolding judge
  judge-some report row found (err e) h = absurd (cc)
  judge-some report row found (ok event) h =
      elim (Bool-cases (compute_hash json sha256 row.prev_hash event == row.stored_hash)) [
        | inl same ↦ ("column mismatch", ground arith)
        | inr differ ↦ ("hash mismatch", ground arith)
      ]

  check_row-some :
      (anchor prev : String) (first : Option ℕ) (checked : ℕ) (row : ChainRow) (found : ChainReport)
      → (is_none first ≡ true → checked ≡ 0)
      → check_row json sha256 anchor first checked prev row ≡ ok (some found)
      → (found.is_ok ≡ false) × (found.break_at ≡ some row.seq) × (found.checked ≡ checked)
  unfolding check_row
  check_row-some anchor prev first checked row found start h =
      elim (Bool-cases (is_none first && not (row.prev_hash == anchor))) [
        | inl fresh ↦ ground (arith, start)
        | inr known ↦ elim (Bool-cases (row.prev_hash == prev)) [
          | inr differ ↦ ground (arith, start)
          | inl same ↦
              let (detail, e) =
                judge-some
                  (broken json sha256 checked (or_default first row.seq) anchor (some prev) row.seq)
                  row found (event_from_payload json row.payload) (ground arith) in
              ground arith
        ]
      ]

  -- The report is of linked rows, or of a break.
  abbrev pub Judged : String → ℕ → List ChainRow → ChainReport → Type 0
  Judged prev checked rows r =
      ((r.is_ok ≡ true) × Laws.Linked json sha256 prev rows)
      ⊎ ((r.is_ok ≡ false) × BreaksAt prev checked rows r)

  Judged-cons :
      (prev : String) (checked : ℕ) (row : ChainRow) (rest : List ChainRow) (r : ChainReport)
      → row.prev_hash ≡ prev
      → Laws.Holds json sha256 row
      → Judged row.stored_hash (suc checked) rest r
      → Judged prev checked (row ∷ rest) r
  Judged-cons prev checked row rest r same holds (inl (fine, linked)) =
      inl (fine, (same, holds, linked))
  Judged-cons prev checked row rest r same holds (inr (wrong, b)) = inr (
    wrong,
    record {
      good = row ∷ b.good;
      bad = b.bad;
      rest = b.rest;
      split = ap (◌∷◌ row) b.split;
      linked = (same, holds, b.linked);
      broken_there = b.broken_there;
      reported = b.reported;
      counted = omega (arith, b.counted);
    },
  )

  verify_from-Judged :
      (anchor prev : String) (first last : Option ℕ) (checked : ℕ) (rows : List ChainRow)
      (r : ChainReport)
      → (is_none first ≡ true → prev ≡ anchor)
      → (is_none first ≡ true → checked ≡ 0)
      → verify_from json sha256 anchor first last checked prev rows ≡ ok r
      → Judged prev checked rows r
  unfolding verify_from
  verify_from-Judged anchor prev first last checked [] r start zero_start h = inl (ground arith, tt)
  verify_from-Judged anchor prev first last checked (row ∷ rest) r start zero_start h =
      step (check_row json sha256 anchor first checked prev row) refl
        (verify_from-Judged anchor row.stored_hash (some (or_default first row.seq)) (some row.seq)
          (suc checked) rest r (λ e. cc) (λ e. cc))
        h
    where
      later : Result ChainReport
      later =
          verify_from json sha256 anchor (some (or_default first row.seq)) (some row.seq)
            (suc checked) row.stored_hash rest

      step :
          (o : Result (Option ChainReport))
          → check_row json sha256 anchor first checked prev row ≡ o
          → (later ≡ ok r → Judged row.stored_hash (suc checked) rest r)
          → next_row json sha256 later o ≡ ok r
          → Judged prev checked (row ∷ rest) r
      step (err e) c ih k = absurd (cc)
      step (ok none) c ih k =
          let (same, holds) = Laws.check_row-none json sha256 anchor prev first checked row c in
          Judged-cons prev checked row rest r same holds (ih k)
      step (ok (some report)) c ih k =
          let (wrong, place, count) =
            check_row-some anchor prev first checked row report zero_start c in
          inr (
            ground arith,
            record {
              good = [];
              bad = row;
              rest = rest;
              split = refl;
              linked = tt;
              broken_there = λ (same, holds).
                  cc (
                    Laws.check_row-Holds json sha256 anchor prev first checked row start same
                      holds);
              reported = ground arith;
              counted = ground arith;
            },
          )

  -- When `verify_rows` returns, its report is good and the rows are linked from the anchor, or its
  -- report is bad and names the first row that breaks the chain: the rows before it are linked, it
  -- does not name their last hash or does not hold by itself, and `checked` counts the rows before.
  pub verify_rows-Judged :
      (anchor : String) (rows : List ChainRow) (r : ChainReport)
      → verify_rows json sha256 anchor rows ≡ ok r
      → Judged anchor 0 rows r
  unfolding verify_rows
  verify_rows-Judged anchor rows r h =
      verify_from-Judged anchor anchor none none 0 rows r (λ e. refl) (λ e. refl) h

  -- A good report is of linked rows.
  pub Linked-of_report :
      (anchor : String) (rows : List ChainRow) (r : ChainReport)
      → verify_rows json sha256 anchor rows ≡ ok r
      → r.is_ok ≡ true
      → Laws.Linked json sha256 anchor rows
  Linked-of_report anchor rows r h fine = elim (verify_rows-Judged anchor rows r h) [
    | inl (good, linked) ↦ linked
    | inr (bad, place) ↦ absurd (cc)
  ]
