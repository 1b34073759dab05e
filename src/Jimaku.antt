-- ===== src/Jimaku.antt =====
-- src/jimaku.rs: the choice of an entry, the ranking of its files, and the key of the cache. The service
-- itself is not modelled.
use asrsub.Prelude.{
  ℕ, ◌+◌, ◌-◌, ◌^◌, Bool, true, false, ◌&&◌, ◌||◌, List, [], ◌∷◌, ◌++◌, Option, none, some,
  if◌then◌else◌, is_nil, leb, ◌==◌, any, map, sort_by_key,
}
use asrsub.Text.{Text, codes, text_eq, is_digit, trim, join, split_whitespace}
use asrsub.Text.Decimal.{parse_digits}
use asrsub.Report.{Signed}
use asrsub.Json.{Json, str_field}
use asrsub.Lang.{or_else, ascii_lower}
use asrsub.Ledger.{signed_eq}

abbrev pub as_negative : Option ℕ → Option Signed
as_negative none = none
as_negative (some n) = if n == 0 then some (Signed.pos 0) else some (Signed.negsuc (n - 1))

abbrev pub as_positive : Option ℕ → Option Signed
as_positive none = none
as_positive (some n) = some (Signed.pos n)

-- The largest `i64`
abbrev pub i64_max : ℕ
i64_max = 2 ^ 63 - 1

abbrev pub parse_digits_of : ℕ → Text → Option ℕ
parse_digits_of most [] = none
parse_digits_of most (c ∷ s) = parse_digits most 0 (c ∷ s)

-- `parse` to an `i64`
unfoldable pub parse_i64 : Text → Option Signed
parse_i64 [] = none
parse_i64 (c ∷ s) =
    if c == b'-'
    then as_negative (parse_digits_of (i64_max + 1) s)
    else if c == b'+'
    then as_positive (parse_digits_of i64_max s)
    else as_positive (parse_digits_of i64_max (c ∷ s))

abbrev pub find_first : {A : Type 0} → (A → Bool) → List A → Option A
find_first p [] = none
find_first p (a ∷ more) = let later = find_first p more in if p a then some a else later

abbrev pub first_of : {A : Type 0} → List A → Option A
first_of [] = none
first_of (a ∷ more) = some a

-- What stands behind the last dot of a file name that has a char before it.
abbrev pub after_last_dot : Text → Option Text
after_last_dot [] = none
after_last_dot (c ∷ s) = elim (after_last_dot s) [
  | some e ↦ some e
  | none ↦ if c == b'.' then some s else none
]

abbrev pub behind_first : Text → Text
behind_first [] = []
behind_first (c ∷ s) = s

unfoldable pub drop_slashes : Text → Text
drop_slashes [] = []
drop_slashes (c ∷ s) =
    let rest = drop_slashes s in if is_nil rest && c == b'/' then [] else c ∷ rest

unfoldable pub last_component : Text → Text
last_component [] = []
last_component (c ∷ s) =
    let later = last_component s in
    if any (λ x. x == b'/') s then later else if c == b'/' then s else c ∷ s

-- `file_name` of a path that does not end in `/.`
abbrev pub file_name : Text → Text
file_name name = last_component (drop_slashes name)

abbrev pub or_blank : Option Text → Text
or_blank none = []
or_blank (some t) = t

-- The extension of a name. A dot at the start of the last component makes none.
unfoldable pub extension : Text → Text
extension name = or_blank (after_last_dot (behind_first (file_name name)))

-- The words between the chars that are no ASCII letter or digit, with the word that is being read
unfoldable pub tokens_from : Text → Text → List Text
tokens_from w [] = if is_nil w then [] else w ∷ []
tokens_from w (c ∷ s) =
    elim ((leb b'a' c && leb c b'z') || (leb b'A' c && leb c b'Z') || is_digit c) [
      | true ↦ tokens_from (w ++ c ∷ []) s
      | false ↦ if is_nil w then tokens_from [] s else w ∷ tokens_from [] s
    ]

abbrev pub has_token : List Text → Text → Bool
has_token toks t = any (text_eq t) toks

unfoldable pub has_ep_tag : Text → Bool
has_ep_tag (a ∷ b ∷ c ∷ d ∷ e ∷ f ∷ more) =
    let later = has_ep_tag (b ∷ c ∷ d ∷ e ∷ f ∷ more) in
    (a == b's' && is_digit b && is_digit c && d == b'e' && is_digit e && is_digit f) || later
has_ep_tag _ = false

abbrev pub points : Bool → ℕ → ℕ
points b n = if b then n else 0

-- `to_lowercase`, as far as the ASCII words that are searched for can tell: of the chars past ASCII
-- only the Kelvin sign and the dotted capital I have an ASCII letter in their lower case.
abbrev pub lower_char : ℕ → Text
lower_char c =
    if c == 0x212a then b'k' ∷ [] else if c == 0x130 then b'i' ∷ 0x307 ∷ [] else ascii_lower c ∷ []

unfoldable pub lower_text : Text → Text
lower_text [] = []
lower_text (c ∷ s) = lower_char c ++ lower_text s

-- The score, raised by 14 so that it is never negative.
unfoldable pub score : Text → Text → ℕ
score ext lower =
    let toks = tokens_from [] lower in
    let good =
      points (has_token toks (codes "varyg") || has_token toks (codes "cr")) 4
      + points (has_ep_tag lower) 4
      + points
          (any (has_token toks)
            (codes "kitaujisub" ∷ codes "kitauji" ∷ codes "lolihouse" ∷ codes "nanakoraws" ∷ []))
          2 in
    (if text_eq ext (codes "srt") then 17 else 15)
    + good
    - points (any (has_token toks) (codes "chs" ∷ codes "cht" ∷ codes "big5" ∷ [])) 14

-- `anilist_cache_key` on the title in lower case
abbrev pub cache_char : ℕ → Text
cache_char c =
    if c == 0xd7
    then b'x' ∷ []
    else if c == 0x30fb || c == b':'
    then b' ' ∷ []
    else if c == b'\''
    then []
    else c ∷ []

abbrev pub cache_chars : Text → Text
cache_chars [] = []
cache_chars (c ∷ s) = cache_char c ++ cache_chars s

-- The lower case of all of Unicode is a parameter.
unfoldable pub anilist_cache_key : (Text → Text) → Text → Text
anilist_cache_key to_lowercase title =
    cache_chars (join (b' ' ∷ []) (split_whitespace (to_lowercase (trim title))))

module _ (J : Json) where
  abbrev only_objects : List J.Value → List J.Value
  only_objects [] = []
  only_objects (v ∷ more) = let rest = only_objects more in if J.is_object v then v ∷ rest else rest

  abbrev list_field : J.Value → Option (List J.Value)
  list_field v = elim (J.get (codes "entries") v) [ some e ↦ J.as_array e | none ↦ none ]

  -- The objects of a list, or of the list under `entries`
  unfoldable pub as_list : J.Value → Option (List J.Value)
  as_list v = elim (or_else (J.as_array v) (list_field v)) [
    | some items ↦ some (only_objects items)
    | none ↦ none
  ]

  abbrev pub id_of_text : J.Value → Option Signed
  id_of_text v = elim (J.as_str v) [ some s ↦ parse_i64 s | none ↦ none ]

  abbrev pub entry_id : J.Value → Option Signed
  entry_id e = elim (J.get (codes "anilist_id") e) [
    | some v ↦ or_else (J.as_i64 v) (id_of_text v)
    | none ↦ none
  ]

  abbrev pub is_id : Signed → Option Signed → Bool
  is_id wanted none = false
  is_id wanted (some i) = signed_eq i wanted

  unfoldable pub pick_entry : List J.Value → Signed → Option J.Value
  pick_entry entries anilist_id =
      or_else (find_first (λ e. is_id anilist_id (entry_id e)) entries) (first_of entries)

  abbrev pub name_of : J.Value → Text
  name_of f = or_blank (str_field J (codes "name") f)

  abbrev pub is_subtitle : Text → Bool
  is_subtitle ext =
      text_eq ext (codes "srt") || text_eq ext (codes "ass") || text_eq ext (codes "ssa")

  abbrev pub lower_name : J.Value → Text
  lower_name f = lower_text (name_of f)

  unfoldable pub scored : List J.Value → List (ℕ × J.Value)
  scored [] = []
  scored (f ∷ files) =
      let rest = scored files in
      let ext = lower_text (extension (name_of f)) in
      if is_subtitle ext then (score ext (lower_name f), f) ∷ rest else rest

  -- Best first, and stable.
  unfoldable pub rank_files : List J.Value → List J.Value
  rank_files files = map (λ s. s.1) (sort_by_key (λ s. 27 - s.0) (scored files))
