-- ===== src/Lang/Normal.antt =====
-- `normalize_lang` on what it returns.
use asrsub.Prelude.{
  ℕ, zero, suc, ◌+◌, ◌≡◌, refl, sym, ap, ap₂, ◌∙◌, subst, Bool, true, false, ◌&&◌, ◌||◌, List, [],
  ◌∷◌, ◌++◌, Option, none, some, leb, ◌==◌, is_some, length, All, All-append, All-mono, all, arith,
  Bool-cases, Option-cases, inl, inr, and_left, and_right,
}
use asrsub.Text.{Text, text_eq, trim, trim_end, split_once_by}
use asrsub.Text.Trim.{NonSpace, IsTrimmed-nonspace, trim-IsTrimmed, trim_end-nonspace}
use asrsub.Text.Equality.{eq_of_text_eq}
use asrsub.Lang.Aliases.{lang_aliases}
use asrsub.Lang.Wire.{wire_accepted_langs}
use asrsub.Lang.Reported.{reported_lang_spellings}
use asrsub.Lang.Iso.{reported_lang_iso_spellings}
use asrsub.Lang.{
  or_else, strip_last, open_group, strip_groups, strip_trailing_qualifier, is_lower_alnum,
  collapse_char, collapse, find_code, alias_code, find_name, wire_name_code, known_code, has_code,
  wire_accepts, names_a_known_language, canonical_head, is_separator, subtag_head, read_or,
  normalize_lang,
}
use asrsub.Lang.Gates.{is_fixed, aliases-fixed, wire-fixed, reported-fixed, iso-fixed}

-- ASCII letters in lower case and digits
abbrev pub IsToken : Text → Type 0
IsToken t = All (λ c. is_lower_alnum c ≡ true) t

collapse_char-IsToken : (c : ℕ) → IsToken (collapse_char c)
unfolding collapse_char
collapse_char-IsToken c = elim (Bool-cases (leb b'A' c && leb c b'Z')) [
  | inl up ↦ rw (up) (raised c up, tt)
  | inr up ↦ elim (Bool-cases (is_lower_alnum c)) [
    | inl low ↦ rw (up, low) (low, tt)
    | inr low ↦ elim (Bool-cases (c == 0x212a)) [
      | inl k ↦ rw (up, low, k) (refl, tt)
      | inr k ↦ elim (Bool-cases (c == 0x130)) [
        | inl i ↦ rw (up, low, k, i) (refl, tt)
        | inr i ↦ rw (up, low, k, i) tt
      ]
    ]
  ]
]
  where
    raised : (c : ℕ) → (leb b'A' c && leb c b'Z') ≡ true → is_lower_alnum (c + 32) ≡ true
    raised c h = ground arith

pub collapse-IsToken : (s : Text) → IsToken (collapse s)
unfolding collapse
collapse-IsToken [] = tt
collapse-IsToken (c ∷ s) =
    All-append (λ c. is_lower_alnum c ≡ true) (collapse_char c) (collapse s)
      (collapse_char-IsToken c) (collapse-IsToken s)

collapse_char-token : (c : ℕ) → is_lower_alnum c ≡ true → collapse_char c ≡ c ∷ []
unfolding collapse_char
collapse_char-token c h = rw (not_upper c h, h) refl
  where
    not_upper : (c : ℕ) → is_lower_alnum c ≡ true → (leb b'A' c && leb c b'Z') ≡ false
    not_upper c h = ground arith

collapse-token : (t : Text) → IsToken t → collapse t ≡ t
unfolding collapse
collapse-token [] h = refl
collapse-token (c ∷ t) h = ap₂ ◌++◌ (collapse_char-token c h.0) (collapse-token t h.1)

IsToken-NonSpace : (t : Text) → IsToken t → All NonSpace t
IsToken-NonSpace t h = All-mono (λ c. is_lower_alnum c ≡ true) NonSpace t (λ c. nonspace c) h
  where
    nonspace : (c : ℕ) → is_lower_alnum c ≡ true → NonSpace c
    nonspace c h = unfold asrsub.Text.is_whitespace in ground arith

pub trim-token : (t : Text) → IsToken t → trim t ≡ t
trim-token t h = trim-IsTrimmed t (IsTrimmed-nonspace t (IsToken-NonSpace t h))

strip_last-token : (d : ℕ) (t : Text) → is_lower_alnum d ≡ false → IsToken t → strip_last d t ≡ none
unfolding strip_last
strip_last-token d [] other h = refl
strip_last-token d (c ∷ []) other h = rw (differs c d h.0 other) refl
  where
    differs : (c d : ℕ) → is_lower_alnum c ≡ true → is_lower_alnum d ≡ false → (c == d) ≡ false
    differs c d h k = ground arith
strip_last-token d (c ∷ e ∷ t) other h = rw (strip_last-token d (e ∷ t) other h.1, strip_last) refl

open_group-token : (t : Text) → IsToken t → open_group t ≡ none
unfolding open_group
open_group-token t h =
    rw (strip_last-token b')' t refl h, strip_last-token b']' t refl h, open_group) refl

pub strip_groups-token : (fuel : ℕ) (t : Text) → IsToken t → strip_groups fuel t ≡ t
unfolding strip_groups
strip_groups-token zero t h = trim_end-nonspace t (IsToken-NonSpace t h)
strip_groups-token (suc fuel) t h =
    let trimmed = trim_end-nonspace t (IsToken-NonSpace t h) in
    rw (ap open_group trimmed ∙ open_group-token t h, strip_groups) trimmed

strip-token : (t : Text) → IsToken t → strip_trailing_qualifier t ≡ t
unfolding strip_trailing_qualifier
strip-token t h = ap (strip_groups (length t)) (trim-token t h) ∙ strip_groups-token (length t) t h

split-token : (t : Text) → IsToken t → split_once_by is_separator t ≡ none
unfolding split_once_by
split-token [] h = refl
split-token (c ∷ t) h = rw (not_separator c h.0, split-token t h.1) refl
  where
    not_separator : (c : ℕ) → is_lower_alnum c ≡ true → is_separator c ≡ false
    not_separator c h = ground arith

subtag_head-token : (t : Text) → IsToken t → subtag_head t ≡ none
unfolding subtag_head
subtag_head-token t h = rw (split-token t h, subtag_head) refl

module _ (code_of : Text → Option Text) (value : Text) where
  pub read_or_code :
      (code : Text)
      → code_of (collapse (strip_trailing_qualifier value)) ≡ some code
      → read_or code_of value ≡ code
  unfolding read_or
  read_or_code code e = rw (e, read_or) refl

  pub read_or_head :
      (head : Text)
      → code_of (collapse (strip_trailing_qualifier value)) ≡ none
      → subtag_head (strip_trailing_qualifier value) ≡ some head
      → read_or code_of value ≡ head
  unfolding read_or
  read_or_head head e h = rw (e, h, read_or) refl

  pub read_or_rest :
      code_of (collapse (strip_trailing_qualifier value)) ≡ none
      → subtag_head (strip_trailing_qualifier value) ≡ none
      → read_or code_of value ≡ collapse (strip_trailing_qualifier value)
  unfolding read_or
  read_or_rest e h = rw (e, h, read_or) refl

pub normalize-token : (t : Text) → IsToken t → alias_code t ≡ none → normalize_lang t ≡ t
unfolding normalize_lang
normalize-token t h other =
    read_or_rest alias_code t (ap alias_code same ∙ other)
      (ap subtag_head (strip-token t h) ∙ subtag_head-token t h)
    ∙ same
  where
    same : collapse (strip_trailing_qualifier t) ≡ t
    same = ap collapse (strip-token t h) ∙ collapse-token t h

-- What a lookup gives has every property that the table's column has.
pub find_code-all :
    (p : Text → Bool) (rows : List (Text × Text)) (t code : Text)
    → all (λ row. p row.1) rows ≡ true
    → find_code rows t ≡ some code
    → p code ≡ true
unfolding find_code
find_code-all p [] t code h e = absurd cc
find_code-all p ((alias, c) ∷ rows) t code h e = elim (Bool-cases (text_eq alias t)) [
  | inl same ↦ subst (λ x. p x ≡ true) (found same) (and_left (p c) _ h)
  | inr differs ↦ find_code-all p rows t code (and_right (p c) _ h) (later differs)
]
  where
    found : text_eq alias t ≡ true → c ≡ code
    found same = ground arith

    later : text_eq alias t ≡ false → find_code rows t ≡ some code
    later differs = ground arith

find_name-all :
    (p : Text → Bool) (rows : List (Text × Text)) (t code : Text)
    → all (λ row. p row.0) rows ≡ true
    → find_name rows t ≡ some code
    → p code ≡ true
unfolding find_name
find_name-all p [] t code h e = absurd cc
find_name-all p ((c, name) ∷ rows) t code h e = elim (Bool-cases (text_eq (collapse name) t)) [
  | inl same ↦ subst (λ x. p x ≡ true) (found same) (and_left (p c) _ h)
  | inr differs ↦ find_name-all p rows t code (and_right (p c) _ h) (later differs)
]
  where
    found : text_eq (collapse name) t ≡ true → c ≡ code
    found same = ground arith

    later : text_eq (collapse name) t ≡ false → find_name rows t ≡ some code
    later differs = ground arith

pub has_code-all :
    (p : Text → Bool) (rows : List (Text × Text)) (t : Text)
    → all (λ row. p row.0) rows ≡ true
    → has_code rows t ≡ true
    → p t ≡ true
unfolding has_code
has_code-all p [] t h e = absurd cc
has_code-all p ((c, name) ∷ rows) t h e = elim (Bool-cases (text_eq c t)) [
  | inl same ↦ subst (λ x. p x ≡ true) (eq_of_text_eq c t same) (and_left (p c) _ h)
  | inr differs ↦
      has_code-all p rows t (and_right (p c) _ h)
        (subst (λ b. (b || has_code rows t) ≡ true) differs e)
]

or_else-all :
    (p : Text → Type 0) (a b : Option Text)
    → ((c : Text) → a ≡ some c → p c)
    → ((c : Text) → b ≡ some c → p c)
    → (c : Text) → or_else a b ≡ some c
    → p c
or_else-all p none b f g c e = g c e
or_else-all p (some x) b f g c e = f c e

abbrev pub Fixed : Text → Type 0
Fixed code = is_fixed code ≡ true

pub alias_code-Fixed : (t code : Text) → alias_code t ≡ some code → Fixed code
unfolding alias_code
alias_code-Fixed t code e = find_code-all is_fixed lang_aliases t code aliases-fixed e

pub known_code-Fixed : (t code : Text) → known_code t ≡ some code → Fixed code
unfolding known_code alias_code wire_name_code
known_code-Fixed t =
    or_else-all Fixed (find_code lang_aliases t) _
      (λ c. find_code-all is_fixed lang_aliases t c aliases-fixed)
      (or_else-all Fixed (find_code reported_lang_spellings t) _
        (λ c. find_code-all is_fixed reported_lang_spellings t c reported-fixed)
        (or_else-all Fixed (find_code reported_lang_iso_spellings t) _
          (λ c. find_code-all is_fixed reported_lang_iso_spellings t c iso-fixed)
          (λ c. find_name-all is_fixed wire_accepted_langs t c wire-fixed)))

pub canonical_head-Fixed :
    (t : Text) → IsToken t → names_a_known_language t ≡ true → Fixed (canonical_head t)
unfolding names_a_known_language
canonical_head-Fixed t h named = elim (Option-cases (known_code t)) [
  | inr (code, e) ↦ subst Fixed (sym (known code e)) (known_code-Fixed t code e)
  | inl e ↦ subst Fixed (sym (unknown e)) (accepted e)
]
  where
    known : (code : Text) → known_code t ≡ some code → canonical_head t ≡ code
    known code e = unfold canonical_head in rw (e, canonical_head) refl

    unknown : known_code t ≡ none → canonical_head t ≡ t
    unknown e = unfold canonical_head in rw (e, canonical_head) refl

    accepts : known_code t ≡ none → wire_accepts t ≡ true
    accepts e = subst (λ o. (is_some o || wire_accepts t) ≡ true) e named

    accepted : known_code t ≡ none → Fixed t
    accepted e = has_code-all is_fixed wire_accepted_langs t wire-fixed (
        ap (has_code wire_accepted_langs) (sym (trim-token t h))
        ∙ (unfold wire_accepts in accepts e))
