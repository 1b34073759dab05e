-- ===== src/Lang.antt =====
-- src/lang.rs: the reading of language tags, the gates on codes, and the names of sidecar files.
pub mod Aliases
pub mod Wire
pub mod Reported
pub mod Iso
pub mod Names
pub mod Sidecar
pub mod Normal
pub mod Gates
pub mod Idempotent
pub mod Strip
pub mod Paths
pub mod Canonical
use asrsub.Prelude.{
  ℕ, zero, suc, ◌+◌, Bool, true, false, not, ◌&&◌, ◌||◌, List, [], ◌∷◌, ◌++◌, Option, none, some,
  leb, ◌==◌, if◌then◌else◌, is_nil, is_some, length, map, any, all,
}
use asrsub.Text.{Text, codes, trim, trim_end, split_once_by, text_eq}
use asrsub.Lang.Aliases.{lang_aliases}
use asrsub.Lang.Wire.{wire_accepted_langs}
use asrsub.Lang.Reported.{reported_lang_spellings}
use asrsub.Lang.Iso.{reported_lang_iso_spellings}
use asrsub.Lang.Names.{display_names}

abbrev pub or_else : {A : Type 0} → Option A → Option A → Option A
or_else none b = b
or_else (some a) b = some a

-- `strip_suffix` of one char
unfoldable pub strip_last : ℕ → Text → Option Text
strip_last c [] = none
strip_last c (x ∷ []) = if x == c then some [] else none
strip_last c (x ∷ y ∷ s) = elim (strip_last c (y ∷ s)) [ none ↦ none | some p ↦ some (x ∷ p) ]

-- What stands before the last occurrence, as `rfind` gives it.
unfoldable pub before_last : ℕ → Text → Option Text
before_last c [] = none
before_last c (x ∷ s) = elim (before_last c s) [
  | some p ↦ some (x ∷ p)
  | none ↦ if x == c then some [] else none
]

-- What stands before the group that closes the text.
unfoldable pub open_group : Text → Option Text
open_group t = elim (strip_last b')' t) [
  | some inner ↦ before_last b'(' inner
  | none ↦ elim (strip_last b']' t) [ some inner ↦ before_last b'[' inner | none ↦ none ]
]

-- The loop, with its rounds counted.
unfoldable pub strip_groups : ℕ → Text → Text
strip_groups zero s = trim_end s
strip_groups (suc fuel) s = elim (open_group (trim_end s)) [
  | none ↦ trim_end s
  | some t ↦ strip_groups fuel t
]

unfoldable pub strip_trailing_qualifier : Text → Text
strip_trailing_qualifier value = strip_groups (length value) (trim value)

abbrev pub is_lower_alnum : ℕ → Bool
is_lower_alnum c = (leb b'a' c && leb c b'z') || (leb b'0' c && leb c b'9')

-- The ASCII letters and digits of `to_lowercase`. Of the chars past ASCII only the Kelvin sign and
-- the dotted capital I have an ASCII letter in their lower case.
unfoldable pub collapse_char : ℕ → Text
collapse_char c =
    if leb b'A' c && leb c b'Z'
    then (c + 32) ∷ []
    else if is_lower_alnum c
    then c ∷ []
    else if c == 0x212a
    then b'k' ∷ []
    else if c == 0x130
    then b'i' ∷ []
    else []

unfoldable pub collapse : Text → Text
collapse [] = []
collapse (c ∷ s) = collapse_char c ++ collapse s

-- `find` on the first column
unfoldable pub find_code : List (Text × Text) → Text → Option Text
find_code [] token = none
find_code ((alias, code) ∷ rows) token =
    let later = find_code rows token in if text_eq alias token then some code else later

unfoldable pub alias_code : Text → Option Text
alias_code token = find_code lang_aliases token

-- The names of the table are collapsed for the comparison.
unfoldable pub find_name : List (Text × Text) → Text → Option Text
find_name [] token = none
find_name ((code, name) ∷ rows) token =
    let later = find_name rows token in if text_eq (collapse name) token then some code else later

unfoldable pub wire_name_code : Text → Option Text
wire_name_code token = find_name wire_accepted_langs token

unfoldable pub known_code : Text → Option Text
known_code token = or_else (alias_code token) (
    or_else (find_code reported_lang_spellings token)
      (or_else (find_code reported_lang_iso_spellings token) (wire_name_code token)))

unfoldable pub has_code : List (Text × Text) → Text → Bool
has_code rows code = any (λ row. text_eq row.0 code) rows

unfoldable pub wire_accepts : Text → Bool
wire_accepts code = has_code wire_accepted_langs (trim code)

unfoldable pub names_a_known_language : Text → Bool
names_a_known_language token = is_some (known_code token) || wire_accepts token

unfoldable pub canonical_head : Text → Text
canonical_head token = elim (known_code token) [ some code ↦ code | none ↦ token ]

abbrev pub is_separator : ℕ → Bool
is_separator c = c == b'-' || c == b'_'

unfoldable pub subtag_head : Text → Option Text
subtag_head value = elim (split_once_by is_separator value) [
  | none ↦ none
  | some (before, after) ↦
      if names_a_known_language (collapse before)
      then some (canonical_head (collapse before))
      else none
]

unfoldable pub read_or : (Text → Option Text) → Text → Text
read_or code_of value =
    let base = strip_trailing_qualifier value in
    elim (code_of (collapse base)) [
      | some code ↦ code
      | none ↦ elim (subtag_head base) [ some head ↦ head | none ↦ collapse base ]
    ]

unfoldable pub normalize_lang : Text → Text
normalize_lang value = read_or alias_code value

unfoldable pub normalize_reported_lang : Text → Text
normalize_reported_lang value = read_or known_code value

abbrev pub ascii_lower : ℕ → ℕ
ascii_lower c = if leb b'A' c && leb c b'Z' then c + 32 else c

abbrev pub uncertainty_markers : List Text
uncertainty_markers =
    codes "und"
    ∷ codes "mul"
    ∷ codes "zxx"
    ∷ codes "mis"
    ∷ codes "unknown"
    ∷ codes "none"
    ∷ codes "na"
    ∷ codes "undefined"
    ∷ codes "auto"
    ∷ []

unfoldable pub is_uncertainty_marker : Text → Bool
is_uncertainty_marker code =
    any (λ marker. text_eq marker (map ascii_lower (trim code))) uncertainty_markers

-- The length in bytes is the length in chars where all are ASCII letters, as the next test asks.
unfoldable pub identity_accepts : Text → Bool
identity_accepts code =
    leb 2 (length (trim code))
    && leb (length (trim code)) 3
    && all (λ c. leb b'a' c && leb c b'z') (trim code)
    && not (is_uncertainty_marker (trim code))

unfoldable pub display_name : Text → Text
display_name code = elim (find_code display_names (normalize_lang code)) [
  | some name ↦ name
  | none ↦ codes "Unknown"
]

unfoldable pub needs_foreign_guard : Text → Bool
needs_foreign_guard code = text_eq (normalize_lang code) (codes "ja")
