-- ===== src/Text.antt =====
-- What the program uses of Rust's `str`, over the list of a text's chars (Unicode scalar values).
-- `trim`, `split`, `split_once`, `lines`, `replace`, `join`, `to_string` and `parse` of the
-- standard library, as src/srt.rs and the other parts call them.
pub mod Decimal
pub mod Trim
pub mod Split
pub mod Equality
use Prim.Native.Char.{code}
use asrsub.Prelude.{
  ℕ, zero, suc, String, ◌≡◌, refl, Bool, true, false, ◌&&◌, ◌||◌, List, [], ◌∷◌, ◌++◌, Option, none,
  some, leb, ltb, ◌==◌, if◌then◌else◌, is_nil, is_some,
}

abbrev pub Text : Type 0
Text = List ℕ

-- The chars of a literal.
abbrev pub codes : String → Text
codes String.[] = []
codes (String.◌∷◌ c s) = code c ∷ codes s

abbrev pub nl : ℕ
nl = b'\n'

abbrev pub cr : ℕ
cr = b'\r'

-- `char::is_whitespace`: the Unicode property White_Space.
unfoldable pub is_whitespace : ℕ → Bool
is_whitespace c =
    (leb 9 c && leb c 13)
    || c == 0x20
    || c == 0x85
    || c == 0xa0
    || c == 0x1680
    || (leb 0x2000 c && leb c 0x200a)
    || c == 0x2028
    || c == 0x2029
    || c == 0x202f
    || c == 0x205f
    || c == 0x3000

unfoldable pub is_digit : ℕ → Bool
is_digit c = leb b'0' c && leb c b'9'

unfoldable pub trim_start : Text → Text
trim_start [] = []
trim_start (c ∷ s) = if is_whitespace c then trim_start s else c ∷ s

unfoldable pub trim_end : Text → Text
trim_end [] = []
trim_end (c ∷ s) = let rest = trim_end s in if is_nil rest && is_whitespace c then [] else c ∷ rest

unfoldable pub trim : Text → Text
unfolding trim_start trim_end is_whitespace
trim s = trim_end (trim_start s)

-- `strip_prefix`: the text behind the pattern, if it starts with the pattern.
unfoldable pub strip_prefix : Text → Text → Option Text
strip_prefix [] s = some s
strip_prefix (p ∷ ps) [] = none
strip_prefix (p ∷ ps) (c ∷ s) = if p == c then strip_prefix ps s else none

abbrev prepend : ℕ → Option (Text × Text) → Option (Text × Text)
prepend c none = none
prepend c (some (a, b)) = some (c ∷ a, b)

abbrev hit_or : Option Text → Option (Text × Text) → Option (Text × Text)
hit_or none later = later
hit_or (some rest) later = some ([], rest)

-- `split_once(pattern)` for a text as pattern.
unfoldable pub split_once : Text → Text → Option (Text × Text)
unfolding strip_prefix
split_once pat [] = hit_or (strip_prefix pat []) none
split_once pat (c ∷ s) = hit_or (strip_prefix pat (c ∷ s)) (prepend c (split_once pat s))

-- `split_once` for a test on chars as pattern.
unfoldable pub split_once_by : (ℕ → Bool) → Text → Option (Text × Text)
split_once_by p [] = none
split_once_by p (c ∷ s) =
    let later = prepend c (split_once_by p s) in if p c then some ([], s) else later

-- `contains(pattern)`
unfoldable pub contains : Text → Text → Bool
unfolding split_once
contains pat s = is_some (split_once pat s)

-- The char goes to the front of the first piece.
abbrev pub extend_first : ℕ → List Text → List Text
extend_first c [] = (c ∷ []) ∷ []
extend_first c (p ∷ ps) = (c ∷ p) ∷ ps

-- `split(c)`: always at least one piece.
unfoldable pub split_char : ℕ → Text → List Text
split_char d [] = [] ∷ []
split_char d (c ∷ s) =
    let pieces = split_char d s in if c == d then [] ∷ pieces else extend_first c pieces

-- `split("\n\n")`: from the left, without overlap.
unfoldable pub split_blank : Text → List Text
split_blank [] = [] ∷ []
split_blank (c ∷ []) = (c ∷ []) ∷ []
split_blank (c ∷ d ∷ s) = elim (c == nl && d == nl) [
  | true ↦ [] ∷ split_blank s
  | false ↦ extend_first c (split_blank (d ∷ s))
]

-- `replace("\r\n", "\n")`
unfoldable pub replace_crlf : Text → Text
replace_crlf [] = []
replace_crlf (c ∷ []) = c ∷ []
replace_crlf (c ∷ d ∷ s) = elim (c == cr && d == nl) [
  | true ↦ nl ∷ replace_crlf s
  | false ↦ c ∷ replace_crlf (d ∷ s)
]

abbrev pub drop_cr : Text → Text
drop_cr [] = []
drop_cr (c ∷ []) = if c == cr then [] else c ∷ []
drop_cr (c ∷ d ∷ s) = c ∷ drop_cr (d ∷ s)

-- The pieces of `split('\n')` as lines: each that a line feed ends loses one `\r` before it, and
-- an empty last piece is no line.
unfoldable pub end_lines : List Text → List Text
end_lines [] = []
end_lines (last ∷ []) = if is_nil last then [] else last ∷ []
end_lines (line ∷ next ∷ more) = drop_cr line ∷ end_lines (next ∷ more)

unfoldable pub lines : Text → List Text
unfolding split_char end_lines
lines s = end_lines (split_char nl s)

-- `join(separator)`
unfoldable pub join : Text → List Text → Text
join sep [] = []
join sep (p ∷ []) = p
join sep (p ∷ q ∷ ps) = p ++ sep ++ join sep (q ∷ ps)

-- `split_whitespace`, with the word that is being read.
unfoldable pub words_from : Text → Text → List Text
words_from w [] = if is_nil w then [] else w ∷ []
words_from w (c ∷ s) = elim (is_whitespace c) [
  | true ↦ if is_nil w then words_from [] s else w ∷ words_from [] s
  | false ↦ words_from (w ++ c ∷ []) s
]

unfoldable pub split_whitespace : Text → List Text
unfolding words_from
split_whitespace s = words_from [] s

-- `a < b` and `a == b` on `str`
abbrev pub text_lt : Text → Text → Bool
text_lt [] [] = false
text_lt [] (d ∷ t) = true
text_lt (c ∷ s) [] = false
text_lt (c ∷ s) (d ∷ t) = ltb c d || ((c == d) && text_lt s t)

abbrev pub text_eq : Text → Text → Bool
text_eq [] [] = true
text_eq [] (d ∷ t) = false
text_eq (c ∷ s) [] = false
text_eq (c ∷ s) (d ∷ t) = (c == d) && text_eq s t
