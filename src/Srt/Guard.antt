-- ===== src/Srt/Guard.antt =====
-- The text guards of src/srt.rs: `sanitize_lines`, `guard_foreign_lines` and `wrong_script`.
pub mod Collapse
use asrsub.Prelude.{
  ℕ, zero, suc, ◌+◌, ◌%◌, Bool, true, false, not, ◌&&◌, ◌||◌, List, [], ◌∷◌, ◌++◌, Option, none,
  some, ltb, leb, ◌==◌, if◌then◌else◌, is_nil, length, max, any, get_or, replicate, F64, map,
}
use asrsub.Text.{Text, codes, text_eq}

abbrev pub ellipsis : ℕ
ellipsis = 0x2026

-- A run of one char, cut to `max_repeat` and marked where it is longer.
unfoldable pub emit_run : ℕ → ℕ → ℕ → Text
emit_run max_repeat c run =
    if ltb max_repeat run then replicate max_repeat c ++ ellipsis ∷ [] else replicate run c

-- The loops over one line, with the char of the run and its length.
unfoldable pub collapse_from : ℕ → ℕ → ℕ → Text → Text
collapse_from max_repeat c run [] = emit_run max_repeat c run
collapse_from max_repeat c run (d ∷ s) = elim (d == c) [
  | true ↦ collapse_from max_repeat c (run + 1) s
  | false ↦ emit_run max_repeat c run ++ collapse_from max_repeat d 1 s
]

unfoldable pub sanitize_line : ℕ → Text → Text
sanitize_line max_repeat [] = []
sanitize_line max_repeat (c ∷ s) = collapse_from max_repeat c 1 s

unfoldable pub sanitize_lines : List Text → ℕ → List Text
unfolding sanitize_line
sanitize_lines [] max_repeat = []
sanitize_lines (s ∷ rest) max_repeat = sanitize_line max_repeat s ∷ sanitize_lines rest max_repeat

abbrev between : ℕ → ℕ → ℕ → Bool
between lo hi c = leb lo c && leb c hi

-- The scripts of `has_non_latin_letter`.
unfoldable pub has_non_latin_letter : Text → Bool
has_non_latin_letter s =
    any
      (λ c.
        between 0x0370 0x03ff c
        || between 0x0400 0x052f c
        || between 0x0590 0x05ff c
        || between 0x0600 0x06ff c
        || between 0x0900 0x097f c
        || between 0x0e00 0x0e7f c
        || between 0x3040 0x309f c
        || between 0x30a0 0x30ff c
        || between 0x3400 0x4dbf c
        || between 0x4e00 0x9fff c
        || between 0xac00 0xd7af c)
      s

-- src/lang.rs
abbrev pub is_kana : ℕ → Bool
is_kana c = leb 0x3040 c && leb c 0x30ff

abbrev pub is_cjk : ℕ → Bool
is_cjk c = is_kana c || ((leb 0x3400 c && leb c 0x4dbf) || (leb 0x4e00 c && leb c 0x9fff))

abbrev pub is_ascii_alphabetic : ℕ → Bool
is_ascii_alphabetic c = (leb b'A' c && leb c b'Z') || (leb b'a' c && leb c b'z')

unfoldable pub has_kana : Text → Bool
has_kana s = any is_kana s

unfoldable pub has_hanzi : Text → Bool
has_hanzi s = any (λ c. (leb 0x3400 c && leb c 0x4dbf) || (leb 0x4e00 c && leb c 0x9fff)) s

unfoldable pub count_latin : Text → ℕ
count_latin [] = 0
count_latin (c ∷ s) = let more = count_latin s in if is_ascii_alphabetic c then suc more else more

unfoldable pub wrong_script : Text → Text → Bool
wrong_script line target_lang_name =
    if is_nil line
    then false
    else if text_eq target_lang_name (codes "Japanese")
    then not (any is_cjk line) && (not (any is_ascii_alphabetic line) && has_non_latin_letter line)
    else has_non_latin_letter line

module _ (F : F64) where
  open F use {Num, of_ℕ, div, lt}

  unfoldable pub latin_ratio : Text → Num
  latin_ratio s = if is_nil s then of_ℕ 0 else div (of_ℕ (count_latin s)) (of_ℕ (max (length s) 1))

  -- `0.5` is `1 / 2`.
  unfoldable pub is_foreign : Text → Bool
  is_foreign l =
      (has_hanzi l && not (has_kana l))
      || (lt (div (of_ℕ 1) (of_ℕ 2)) (latin_ratio l) && not (has_kana l))

  -- `（歌詞）`
  abbrev pub lyrics : Text
  lyrics = 0xff08 ∷ 0x6b4c ∷ 0x8a5e ∷ 0xff09 ∷ []

  unfoldable pub guard_from : ℕ → List Text → List Text → List Text
  guard_from i placeholders [] = []
  guard_from i placeholders (l ∷ lines) =
      let rest = guard_from (i + 1) placeholders lines in
      if is_foreign l
      then get_or placeholders (i % max (length placeholders) 1) lyrics ∷ rest
      else l ∷ rest

  unfoldable pub guard_foreign_lines : List Text → List Text → List Text
  guard_foreign_lines lines placeholders = guard_from 0 placeholders lines
