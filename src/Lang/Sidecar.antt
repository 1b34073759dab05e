-- ===== src/Lang/Sidecar.antt =====
-- The names of sidecar files in src/lang.rs.
use asrsub.Prelude.{
  ℕ, zero, suc, Bool, List, [], ◌∷◌, ◌++◌, none, some, if◌then◌else◌, is_nil, length, map, any,
}
use asrsub.Text.{Text, codes, text_eq}
use asrsub.Lang.Aliases.{lang_aliases}
use asrsub.Lang.{before_last, alias_code, normalize_lang}

-- `contains` on a list of strings
unfoldable pub has_text : Text → List Text → Bool
has_text t ts = any (text_eq t) ts

-- `if !list.contains(&t) { list.push(t) }`
abbrev pub push_new : List Text → Text → List Text
push_new ts t = if has_text t ts then ts else ts ++ t ∷ []

unfoldable pub push_all : List Text → List Text → List Text
push_all ts [] = ts
push_all ts (t ∷ more) = push_all (push_new ts t) more

-- The loop, bounded by the length of the table.
unfoldable pub follow : ℕ → Text → Text
follow zero code = code
follow (suc rounds) code = elim (alias_code code) [
  | none ↦ code
  | some next ↦ let further = follow rounds next in if text_eq next code then code else further
]

unfoldable pub canonical_code : Text → Text
canonical_code token = follow (length lang_aliases) token

-- The codes of the table, each once, in the order they are met.
unfoldable pub canonicals : List Text
canonicals = push_all [] (map (λ row. canonical_code row.1) lang_aliases)

abbrev spelled : Text → List (Text × Text) → List Text
spelled canonical [] = []
spelled canonical ((alias, code) ∷ rows) =
    let later = spelled canonical rows in
    if text_eq (canonical_code alias) canonical then alias ∷ later else later

-- The spellings of one language, its canonical code first.
unfoldable pub aliases_of : Text → List Text
aliases_of canonical = push_all (canonical ∷ []) (spelled canonical lang_aliases)

unfoldable pub sidecar_aliases : Text → List Text
sidecar_aliases lang =
    let want = normalize_lang lang in if has_text want canonicals then aliases_of want else []

abbrev pub srt_path : Text → Text → Text → Text
srt_path stem alias flag = stem ++ (b'.' ∷ alias ++ (flag ++ codes ".srt"))

abbrev pub flags : List Text
flags = [] ∷ codes ".hi" ∷ codes ".forced" ∷ codes ".hi.forced" ∷ codes ".forced.hi" ∷ []

abbrev pub paths_for : Text → List Text → List Text → List Text
paths_for stem kinds [] = []
paths_for stem kinds (alias ∷ rest) = map (srt_path stem alias) kinds ++ paths_for stem kinds rest

abbrev pub or_norm : Text → List Text → List Text
or_norm norm aliases = if is_nil aliases then norm ∷ [] else aliases

unfoldable pub sidecar_paths : Text → Text → List Text
sidecar_paths stem lang =
    paths_for stem flags (or_norm (normalize_lang lang) (sidecar_aliases (normalize_lang lang)))

unfoldable pub canonical_target_sidecar : Text → Text → Text
canonical_target_sidecar stem lang = srt_path stem (normalize_lang lang) (codes ".hi")

unfoldable pub replaceable_target_sidecar_paths : Text → Text → List Text
replaceable_target_sidecar_paths stem lang =
    let norm = normalize_lang lang in
    let aliases = sidecar_aliases norm in
    push_all (canonical_target_sidecar stem norm ∷ []) (
      if is_nil aliases
      then srt_path stem norm [] ∷ []
      else paths_for stem ([] ∷ codes ".hi" ∷ []) aliases)

unfoldable pub stem_of : Text → Text
stem_of path = elim (before_last b'.' path) [ some s ↦ s | none ↦ path ]
