-- ===== src/Lang/Gates.antt =====
-- Facts on the tables, found by evaluation.
use asrsub.Prelude.{◌≡◌, refl, Bool, true, all}
use asrsub.Text.{Text, text_eq, trim, trim_end, split_once_by}
use asrsub.Lang.Aliases.{lang_aliases}
use asrsub.Lang.Wire.{wire_accepted_langs}
use asrsub.Lang.Reported.{reported_lang_spellings}
use asrsub.Lang.Iso.{reported_lang_iso_spellings}
use asrsub.Lang.{
  identity_accepts, is_uncertainty_marker, normalize_lang, read_or, alias_code,
  strip_trailing_qualifier, strip_groups, open_group, strip_last, before_last, collapse,
  collapse_char, find_code, subtag_head, names_a_known_language, canonical_head, known_code,
  wire_name_code, find_name, wire_accepts, has_code,
}

abbrev pub is_fixed : Text → Bool
is_fixed code = text_eq (normalize_lang code) code

pub aliases-fixed : all (λ row. is_fixed row.1) lang_aliases ≡ true
unfolding normalize_lang read_or alias_code strip_trailing_qualifier strip_groups open_group
    strip_last before_last collapse collapse_char find_code subtag_head names_a_known_language
    canonical_head known_code wire_name_code find_name wire_accepts has_code split_once_by trim
    trim_end
aliases-fixed = refl

pub wire-fixed : all (λ row. is_fixed row.0) wire_accepted_langs ≡ true
unfolding normalize_lang read_or alias_code strip_trailing_qualifier strip_groups open_group
    strip_last before_last collapse collapse_char find_code subtag_head names_a_known_language
    canonical_head known_code wire_name_code find_name wire_accepts has_code split_once_by trim
    trim_end
wire-fixed = refl

pub reported-fixed : all (λ row. is_fixed row.1) reported_lang_spellings ≡ true
unfolding normalize_lang read_or alias_code strip_trailing_qualifier strip_groups open_group
    strip_last before_last collapse collapse_char find_code subtag_head names_a_known_language
    canonical_head known_code wire_name_code find_name wire_accepts has_code split_once_by trim
    trim_end
reported-fixed = refl

pub iso-fixed : all (λ row. is_fixed row.1) reported_lang_iso_spellings ≡ true
unfolding normalize_lang read_or alias_code strip_trailing_qualifier strip_groups open_group
    strip_last before_last collapse collapse_char find_code subtag_head names_a_known_language
    canonical_head known_code wire_name_code find_name wire_accepts has_code split_once_by trim
    trim_end
iso-fixed = refl

pub wire-identity : all (λ row. identity_accepts row.0) wire_accepted_langs ≡ true
unfolding identity_accepts is_uncertainty_marker trim
wire-identity = refl
