-- ===== src/Lang/Idempotent.antt =====
-- What `normalize_lang` and `normalize_reported_lang` return is a code they keep.
use asrsub.Prelude.{
  ◌≡◌, refl, sym, ap, ◌∙◌, subst, true, false, Option, none, some, Option-cases, Bool-cases, inl,
  inr,
}
use asrsub.Text.{Text, text_eq, split_once_by}
use asrsub.Text.Equality.{eq_of_text_eq, text_eq_refl}
use asrsub.Lang.{
  or_else, alias_code, known_code, collapse, strip_trailing_qualifier, subtag_head, read_or,
  normalize_lang, normalize_reported_lang, is_separator, names_a_known_language, canonical_head,
}
use asrsub.Lang.Normal.{
  Fixed, known_code-Fixed, alias_code-Fixed, canonical_head-Fixed, collapse-IsToken, read_or_code,
  read_or_head, read_or_rest, normalize-token,
}

module _ (t : Text) where
  subtag_head-no_separator : split_once_by is_separator t ≡ none → subtag_head t ≡ none
  unfolding subtag_head
  subtag_head-no_separator s = rw (s, subtag_head) refl

  module _ (before after : Text) (s : split_once_by is_separator t ≡ some (before, after)) where
    subtag_head-named :
        names_a_known_language (collapse before) ≡ true
        → subtag_head t ≡ some (canonical_head (collapse before))
    unfolding subtag_head
    subtag_head-named named = rw (s, subtag_head, named) refl

    subtag_head-unnamed : names_a_known_language (collapse before) ≡ false → subtag_head t ≡ none
    unfolding subtag_head
    subtag_head-unnamed unnamed = rw (s, subtag_head, unnamed) refl

-- The primary subtag, where it is read, is a code that `normalize_lang` keeps.
subtag_head-Fixed : (t head : Text) → subtag_head t ≡ some head → Fixed head
subtag_head-Fixed t head e = elim (Option-cases (split_once_by is_separator t)) [
  | inl s ↦ absurd (is_none (subtag_head-no_separator t s))
  | inr ((before, after), s) ↦ elim (Bool-cases (names_a_known_language (collapse before))) [
    | inl named ↦
        is_some_of (canonical_head (collapse before)) (subtag_head-named t before after s named)
          (canonical_head-Fixed (collapse before) (collapse-IsToken before) named)
    | inr unnamed ↦ absurd (is_none (subtag_head-unnamed t before after s unnamed))
  ]
]
  where
    is_none : subtag_head t ≡ none → ⊥
    is_none n = absurd cc

    same : (h : Text) → subtag_head t ≡ some h → h ≡ head
    same h n = cc

    is_some_of : (h : Text) → subtag_head t ≡ some h → Fixed h → Fixed head
    is_some_of h n f = subst Fixed (same h n) f

of_code : (r s : Text) → s ≡ r → Fixed r → Fixed s
of_code r s e f = subst Fixed (sym e) f

module _ (code_of : Text → Option Text)
    (gives_fixed : (t code : Text) → code_of t ≡ some code → Fixed code)
    (knows_aliases : (t : Text) → code_of t ≡ none → alias_code t ≡ none) where
  read_or-Fixed : (value : Text) → Fixed (read_or code_of value)
  read_or-Fixed value = elim (Option-cases (code_of (collapse base))) [
    | inr (code, e) ↦ of_code code _ (read_or_code code_of value code e) (gives_fixed _ code e)
    | inl e ↦ elim (Option-cases (subtag_head base)) [
      | inr (head, h) ↦
          of_code head _ (read_or_head code_of value head e h) (subtag_head-Fixed base head h)
      | inl h ↦ of_code (collapse base) _ (read_or_rest code_of value e h) (rest_fixed e)
    ]
  ]
    where
      base : Text
      base = strip_trailing_qualifier value

      rest_fixed : code_of (collapse base) ≡ none → Fixed (collapse base)
      rest_fixed e =
          ap (λ s. text_eq s (collapse base))
            (normalize-token (collapse base) (collapse-IsToken base) (knows_aliases _ e))
          ∙ text_eq_refl (collapse base)

known_code-alias_code : (t : Text) → known_code t ≡ none → alias_code t ≡ none
unfolding known_code
known_code-alias_code t e = first (alias_code t) _ e
  where
    first : (a b : Option Text) → or_else a b ≡ none → a ≡ none
    first none b h = refl
    first (some x) b h = absurd cc

-- Reading a language tag twice gives what reading it once gives; and a language that a
-- speech-recognition endpoint reports is read as a code that the reading of tags leaves as it is.
pub normalize_lang_idem :
    (value : Text)
    → (normalize_lang (normalize_lang value) ≡ normalize_lang value)
      × (normalize_lang (normalize_reported_lang value) ≡ normalize_reported_lang value)
unfolding normalize_reported_lang
normalize_lang_idem value = (
  eq_of_text_eq _ _ (fixed value),
  eq_of_text_eq _ _ (read_or-Fixed known_code known_code-Fixed known_code-alias_code value),
)
  where
    opened : (v : Text) → normalize_lang v ≡ read_or alias_code v
    opened v = unfold normalize_lang in refl

    fixed : (v : Text) → Fixed (normalize_lang v)
    fixed v = subst Fixed (sym (opened v)) (read_or-Fixed alias_code alias_code-Fixed (λ t e. e) v)
