-- ===== src/Audit/Chain/Tampering.antt =====
-- What the head of a verified chain says about its history, and what it does not.
use headofcontext.Prelude.{
  ◌≡◌, refl, ap, sym, ◌∙◌, ℕ, suc, String, true, Option, none, some, List, [], ◌∷◌, length, Member,
  here, there, or_default, arith,
}
use headofcontext.Core.Errors.{Result, ok, err}
use Prim.Native.String.{count}
use text.Mathlib.TextLemmas.{append_inj}
use headofcontext.Core.Events.{AuditEvent, ◌+++◌}
use headofcontext.Audit.Payload.{Json, ReadsBack, canonical_json, event_from_payload}
use headofcontext.Audit.Payload.Roundtrip.{event_from_payload-canonical_json}
use headofcontext.Audit.Chain.{
  ChainRow, ChainReport, columns_mismatch, broken, judge, check_row, verify_from, verify_rows,
}
use headofcontext.Audit.Chain.Laws
use headofcontext.Audit.Chain.Laws.{last_hash}
use headofcontext.Audit.Chain.Breaks.{Linked-of_report}

module _ (json : Json) (sha256 : String → String) where
  -- The text is what the digest is taken of for one of the rows: the hash before it, and the
  -- canonical JSON of the event that it reads as.
  abbrev pub Hashed : List ChainRow → String → Type 0
  Hashed rows t =
      (x : ChainRow) × (e : AuditEvent) × Member x rows
      × (event_from_payload json x.payload ≡ ok e)
      × (t ≡ x.prev_hash +++ canonical_json json e)

  -- The digest tells the texts apart that are hashed for the two lists.
  abbrev pub NoCollision : List ChainRow → List ChainRow → Type 0
  NoCollision xs ys = (s t : String) → Hashed xs s → Hashed ys t → sha256 s ≡ sha256 t → s ≡ t

  -- The JSON library reads back the events that the rows read as.
  abbrev pub Faithful : List ChainRow → Type 0
  Faithful rows =
      (x : ChainRow) (e : AuditEvent)
      → Member x rows
      → event_from_payload json x.payload ≡ ok e
      → ReadsBack json e

  -- The length of a SHA-256 digest in hex.
  abbrev pub IsDigest : String → Type 0
  IsDigest s = count s ≡ 64

  -- The rows read as the same events under the same hashes, one by one.
  abbrev pub SameHistory : List ChainRow → List ChainRow → Type 0
  SameHistory [] [] = Unit
  SameHistory [] (y ∷ ys) = ⊥
  SameHistory (x ∷ xs) [] = ⊥
  SameHistory (x ∷ xs) (y ∷ ys) =
      (event_from_payload json x.payload ≡ event_from_payload json y.payload)
      × (x.prev_hash ≡ y.prev_hash)
      × (x.stored_hash ≡ y.stored_hash)
      × SameHistory xs ys

  -- Events with the same canonical JSON are the same, where it is read back.
  canonical_json-inj :
      (e f : AuditEvent)
      → ReadsBack json e
      → ReadsBack json f
      → canonical_json json e ≡ canonical_json json f
      → e ≡ f
  canonical_json-inj e f back_e back_f h =
      let read_e = event_from_payload-canonical_json json e back_e in
      let read_f = event_from_payload-canonical_json json f back_f in
      let same : ok e ≡ event_from_payload json (canonical_json json f) =
        sym read_e ∙ ap (event_from_payload json) h in
      ground (arith, same ∙ read_f)

  history_from :
      (p q : String) (xs ys : List ChainRow)
      → ((s : String) → IsDigest (sha256 s))
      → IsDigest p
      → IsDigest q
      → Laws.Linked json sha256 p xs
      → Laws.Linked json sha256 q ys
      → length xs ≡ length ys
      → last_hash p xs ≡ last_hash q ys
      → Faithful xs
      → Faithful ys
      → NoCollision xs ys
      → (p ≡ q) × SameHistory xs ys
  history_from p q [] [] sized dp dq lx ly len h bx by free = (h, tt)
  history_from p q [] (y ∷ ys) sized dp dq lx ly len h bx by free = absurd (omega arith)
  history_from p q (x ∷ xs) [] sized dp dq lx ly len h bx by free = absurd (omega arith)
  history_from p q (x ∷ xs) (y ∷ ys) sized dp dq (nx, (e, px, hx, cx), lx) (ny, (f, py, hy, cy), ly)
        len h bx by free =
      let (stored, rest) =
        history_from x.stored_hash y.stored_hash xs ys sized (ap count (sym hx) ∙ sized _)
          (ap count (sym hy) ∙ sized _) lx ly (omega arith) h (λ a c m. bx a c (there m))
          (λ a c m. by a c (there m))
          (λ a b (c, d, m, k, i) (c2, d2, m2, k2, i2).
            free a b (c, d, there m, k, i) (c2, d2, there m2, k2, i2)) in
      let texts =
        free _ _ (x, e, here refl, px, refl) (y, f, here refl, py, refl) (hx ∙ (stored ∙ sym hy)) in
      let (prev, events) = append_inj texts (ap count nx ∙ dp ∙ sym dq ∙ sym (ap count ny)) in
      let same = canonical_json-inj e f (bx x e (here refl) px) (by y f (here refl) py) events in
      (sym nx ∙ (prev ∙ ny), (px ∙ (ap ok same ∙ sym py), prev, stored, rest))

  -- Two lists of rows of the same length that both verify and end with the same hash read as the
  -- same events under the same hashes, and start from the same anchor: nothing before the head can
  -- be changed, reordered, removed or put in. It is assumed of the digest that it has 64 letters,
  -- as the two anchors do, and that it tells the texts apart that are hashed for these rows; of the
  -- JSON library, that it reads back the events of these rows.
  pub history_of_head :
      (p q : String) (xs ys : List ChainRow) (r s : ChainReport)
      → ((t : String) → IsDigest (sha256 t))
      → IsDigest p
      → IsDigest q
      → verify_rows json sha256 p xs ≡ ok r
      → r.is_ok ≡ true
      → verify_rows json sha256 q ys ≡ ok s
      → s.is_ok ≡ true
      → length xs ≡ length ys
      → last_hash p xs ≡ last_hash q ys
      → Faithful xs
      → Faithful ys
      → NoCollision xs ys
      → (p ≡ q) × SameHistory xs ys
  history_of_head p q xs ys r s sized dp dq hx rx hy sy len h bx by free =
      history_from p q xs ys sized dp dq (Linked-of_report json sha256 p xs r hx rx)
        (Linked-of_report json sha256 q ys s hy sy) len h bx by free

  -- The two rows differ at most in what their payloads hold beside the event and the columns.
  abbrev pub ReadsAlike : List ChainRow → List ChainRow → Type 0
  ReadsAlike [] [] = Unit
  ReadsAlike [] (y ∷ ys) = ⊥
  ReadsAlike (x ∷ xs) [] = ⊥
  ReadsAlike (x ∷ xs) (y ∷ ys) =
      (x.seq ≡ y.seq)
      × (x.prev_hash ≡ y.prev_hash)
      × (x.stored_hash ≡ y.stored_hash)
      × (event_from_payload json x.payload ≡ event_from_payload json y.payload)
      × (columns_mismatch json sha256 x.columns x.payload
          ≡ columns_mismatch json sha256 y.columns y.payload)
      × ReadsAlike xs ys

  judge-alike :
      (report : String → ChainReport) (x y : ChainRow) (r : Result AuditEvent)
      → x.prev_hash ≡ y.prev_hash
      → x.stored_hash ≡ y.stored_hash
      → columns_mismatch json sha256 x.columns x.payload
        ≡ columns_mismatch json sha256 y.columns y.payload
      → judge json sha256 report x r ≡ judge json sha256 report y r
  unfolding judge
  judge-alike report x y (err e) p h c = refl
  judge-alike report x y (ok event) p h c = simp (p, h, c)

  check_row-alike :
      (anchor prev : String) (first : Option ℕ) (checked : ℕ) (x y : ChainRow)
      → x.seq ≡ y.seq
      → x.prev_hash ≡ y.prev_hash
      → x.stored_hash ≡ y.stored_hash
      → event_from_payload json x.payload ≡ event_from_payload json y.payload
      → columns_mismatch json sha256 x.columns x.payload
        ≡ columns_mismatch json sha256 y.columns y.payload
      → check_row json sha256 anchor first checked prev x
        ≡ check_row json sha256 anchor first checked prev y
  unfolding check_row
  check_row-alike anchor prev first checked x y s p h e c = simp (
    s,
    p,
    e,
    judge-alike (broken json sha256 checked (or_default first y.seq) anchor (some prev) y.seq) x y
        (event_from_payload json y.payload) p h c,
  )

  verify_from-ReadsAlike :
      (anchor prev : String) (first last : Option ℕ) (checked : ℕ) (xs ys : List ChainRow)
      → ReadsAlike xs ys
      → verify_from json sha256 anchor first last checked prev xs
        ≡ verify_from json sha256 anchor first last checked prev ys
  unfolding verify_from
  verify_from-ReadsAlike anchor prev first last checked [] [] alike = refl
  verify_from-ReadsAlike anchor prev first last checked [] (y ∷ ys) alike = absurd alike
  verify_from-ReadsAlike anchor prev first last checked (x ∷ xs) [] alike = absurd alike
  verify_from-ReadsAlike anchor prev first last checked (x ∷ xs) (y ∷ ys) (s, p, h, e, c, rest) =
      simp (
        check_row-alike anchor prev first checked x y s p h e c,
        s,
        h,
        verify_from-ReadsAlike anchor y.stored_hash (some (or_default first y.seq)) (some y.seq)
            (suc checked) xs ys rest,
      )

  -- `verify_rows` reports the same on rows whose payloads differ, as long as they read as the same
  -- events and agree with the columns alike: what is hashed is the event, not the payload.
  pub verify_rows-ReadsAlike :
      (anchor : String) (xs ys : List ChainRow)
      → ReadsAlike xs ys
      → verify_rows json sha256 anchor xs ≡ verify_rows json sha256 anchor ys
  unfolding verify_rows
  verify_rows-ReadsAlike anchor xs ys alike =
      verify_from-ReadsAlike anchor anchor none none 0 xs ys alike
