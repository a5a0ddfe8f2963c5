-- ===== src/Core/Refs.antt =====
-- core/refs.py: references `type:id` and resource patterns. The two regular expressions are written
-- out as scans of the code points. `$` also matches before one newline at the end of the text.
pub mod Laws
use headofcontext.Prelude.{
  ℕ, String, Bool, true, false, ◌&&◌, ◌||◌, not, Option, none, some, List, [], ◌∷◌, leb, nat_eq,
  is_empty, codes, if◌then◌else◌,
}
use headofcontext.Core.Errors.{Result, ok, raised, invalid_resource, invariant_violation}

abbrev pub in_range : ℕ → ℕ → ℕ → Bool
in_range lo hi c = leb lo c && leb c hi

-- [a-z], [a-z0-9_-] and [A-Za-z0-9._~/@+=-].
abbrev pub type_head : ℕ → Bool
type_head = in_range b'a' b'z'

abbrev pub type_char : ℕ → Bool
type_char c = type_head c || in_range b'0' b'9' c || nat_eq b'_' c || nat_eq b'-' c

unfoldable pub id_char : ℕ → Bool
id_char c =
    in_range b'A' b'Z' c
    || type_char c
    || nat_eq b'.' c
    || nat_eq b'~' c
    || nat_eq b'/' c
    || nat_eq b'@' c
    || nat_eq b'+' c
    || nat_eq b'=' c

abbrev pub newline : ℕ
newline = 10

-- `$` with no flag.
abbrev pub at_end : List ℕ → Bool
at_end [] = true
at_end (c ∷ []) = nat_eq newline c
at_end (c ∷ d ∷ s) = false

-- [a-z0-9_-]*: the rest of the type, and what follows the colon.
unfoldable pub scan_type : List ℕ → Option (List ℕ × List ℕ)
scan_type [] = none
scan_type (c ∷ s) =
    let found = scan_type s in
    if nat_eq b':' c
    then some ([], s)
    else if type_char c
    then elim found [ none ↦ none | some p ↦ some (c ∷ p.0, p.1) ]
    else none

-- The group `type`, and what follows the colon.
unfoldable pub match_type : List ℕ → Option (List ℕ × List ℕ)
unfolding scan_type
match_type [] = none
match_type (c ∷ s) =
    if type_head c then elim (scan_type s) [ none ↦ none | some p ↦ some (c ∷ p.0, p.1) ] else none

-- What follows the longest run of id characters, and whether the run is empty.
unfoldable pub after_id : List ℕ → List ℕ
after_id [] = []
after_id (c ∷ s) = let rest = after_id s in if id_char c then rest else c ∷ s

abbrev pub starts_id : List ℕ → Bool
starts_id [] = false
starts_id (c ∷ s) = id_char c

-- `\*?$`.
abbrev pub star_end : List ℕ → Bool
star_end [] = true
star_end (c ∷ s) = (nat_eq b'*' c && at_end s) || at_end (c ∷ s)

abbrev pub starts_star : List ℕ → Bool
starts_star [] = false
starts_star (c ∷ s) = nat_eq b'*' c

-- The two expressions after the colon; the group `id` is not empty.
abbrev pub pattern_id : List ℕ → Bool
pattern_id s = star_end (after_id s) && (starts_id s || starts_star s)

abbrev pub plain_id : List ℕ → Bool
plain_id s = starts_id s && at_end (after_id s)

abbrev pub text_eq : List ℕ → List ℕ → Bool
text_eq [] [] = true
text_eq (c ∷ s) (d ∷ t) = nat_eq c d && text_eq s t
text_eq [] (d ∷ t) = false
text_eq (c ∷ s) [] = false

-- Whether `_RESOURCE_RE` matches with a non-empty id.
unfoldable pub is_resource_pattern : String → Bool
unfolding match_type after_id
is_resource_pattern value = elim (match_type (codes value)) [
  | none ↦ false
  | some p ↦ pattern_id p.1
]

unfoldable pub validate_resource_pattern : String → Result String
validate_resource_pattern value =
    if is_resource_pattern value then ok value else raised invalid_resource

-- Whether `_PLAIN_RE` matches with the expected type.
unfoldable pub is_ref : String → String → Bool
unfolding match_type after_id
is_ref value expected_type = elim (match_type (codes value)) [
  | none ↦ false
  | some p ↦ plain_id p.1 && text_eq p.0 (codes expected_type)
]

unfoldable pub validate_ref : String → String → Result String
validate_ref value expected_type =
    if is_ref value expected_type then ok value else raised invariant_violation
