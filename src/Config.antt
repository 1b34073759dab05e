-- ===== src/Config.antt =====
-- src/config.rs: the layers of the configuration, the reading of values, and the mapping of paths. The files
-- and the environment are arguments; a map is the list of its keys with their values.
pub mod Paths
use asrsub.Prelude.{
  ℕ, zero, suc, ◌+◌, ◌-◌, ◌*◌, ◌/◌, ◌%◌, ◌^◌, ◌≡◌, Bool, true, false, not, ◌&&◌, ◌||◌, List, [],
  ◌∷◌, ◌++◌, Option, none, some, if◌then◌else◌, is_nil, is_some, leb, ◌==◌, any, all, map,
}
use asrsub.Text.{
  Text, codes, text_eq, trim, trim_start, lines, split_once_by, strip_prefix, split_char, contains,
  is_digit,
}
use asrsub.Lang.{ascii_lower}

abbrev pub Settings : Type 0
Settings = List (Text × Text)

abbrev pub set_key : Text → Text → List (Text × Text) → List (Text × Text)
set_key k v [] = (k, v) ∷ []
set_key k v ((key, value) ∷ more) =
    let rest = set_key k v more in if text_eq key k then (k, v) ∷ more else (key, value) ∷ rest

abbrev pub get_key : Text → List (Text × Text) → Option Text
get_key k [] = none
get_key k ((key, value) ∷ more) =
    let later = get_key k more in if text_eq key k then some value else later

abbrev pub last_char : ℕ → Text → ℕ
last_char c [] = c
last_char c (d ∷ s) = last_char d s

abbrev pub but_last : Text → Text
but_last [] = []
but_last (c ∷ []) = []
but_last (c ∷ d ∷ s) = c ∷ but_last (d ∷ s)

-- One layer of the same quotes on both sides
unfoldable pub unquote : Text → Text
unquote [] = []
unquote (c ∷ []) = c ∷ []
unquote (c ∷ d ∷ s) =
    if (c == b'"' || c == b'\'') && last_char d s == c then but_last (d ∷ s) else c ∷ d ∷ s

abbrev pub or_prefix : Option Text → Option Text → Text → Text
or_prefix (some rest) second line = trim_start rest
or_prefix none (some rest) line = trim_start rest
or_prefix none none line = line

-- `export KEY=…`
abbrev pub without_export : Text → Text
without_export line =
    or_prefix (strip_prefix (codes "export ") line) (strip_prefix (codes "export" ++ 9 ∷ []) line)
      line

abbrev pub starts_with_hash : Text → Bool
starts_with_hash [] = false
starts_with_hash (c ∷ s) = c == b'#'

abbrev pub set_pair : Option (Text × Text) → List (Text × Text) → List (Text × Text)
set_pair none out = out
set_pair (some (k, v)) out =
    if is_nil (trim k) then out else set_key (trim k) (unquote (trim v)) out

unfoldable pub env_line : Text → List (Text × Text) → List (Text × Text)
env_line raw out =
    let line = trim raw in
    if is_nil line || starts_with_hash line || not (any (λ c. c == b'=') line)
    then out
    else set_pair (split_once_by (λ c. c == b'=') (without_export line)) out

unfoldable pub env_lines : List Text → List (Text × Text) → List (Text × Text)
env_lines [] out = out
env_lines (raw ∷ more) out = env_lines more (env_line raw out)

-- The text of the file, where it can be read
unfoldable pub parse_env_file : Option Text → List (Text × Text) → List (Text × Text)
parse_env_file none out = out
parse_env_file (some text) out = env_lines (lines text) out

unfoldable pub set_all : List (Text × Text) → List (Text × Text) → List (Text × Text)
set_all [] out = out
set_all ((k, v) ∷ more) out = set_all more (set_key k v out)

unfoldable pub set_env :
    (Text → Bool) → List (Text × Text) → List (Text × Text) → List (Text × Text)
set_env is_allowed [] out = out
set_env is_allowed ((k, v) ∷ more) out = set_env is_allowed more (
    if is_nil (trim v) || not (is_some (get_key k out) || is_allowed k)
    then out
    else set_key k v out)

abbrev pub is_ascii_whitespace : ℕ → Bool
is_ascii_whitespace c = c == b' ' || c == 9 || c == 10 || c == 12 || c == 13

abbrev pub trim_left : Text → Text
trim_left [] = []
trim_left (c ∷ s) = let rest = trim_left s in if is_ascii_whitespace c then rest else c ∷ s

abbrev pub trim_right : Text → Text
trim_right [] = []
trim_right (c ∷ s) =
    let rest = trim_right s in if is_nil rest && is_ascii_whitespace c then [] else c ∷ rest

-- `is_reserved_key` of src/discord_config.rs
unfoldable pub is_reserved_key : Text → Bool
is_reserved_key raw =
    text_eq (map ascii_lower (trim_right (trim_left raw))) (codes "discord_webhook_url")

unfoldable pub filter_reserved : List (Text × Text) → List (Text × Text)
filter_reserved [] = []
filter_reserved ((key, value) ∷ more) =
    let rest = filter_reserved more in if is_reserved_key key then rest else (key, value) ∷ rest

-- The files from the lowest layer up, the pairs of the two override files, and the environment last. The
-- list of allowed keys is an argument.
unfoldable pub load :
    Option Text
    → Option Text
    → List (Text × Text)
    → List (Text × Text)
    → (Text → Bool)
    → List (Text × Text)
    → List (Text × Text)
load legacy_file file legacy_overrides overrides is_allowed env = filter_reserved (
    set_env is_allowed env (
      set_all overrides
        (set_all legacy_overrides (parse_env_file file (parse_env_file legacy_file [])))))

-- The value of a key that is set and not blank
unfoldable pub set_value : Text → List (Text × Text) → Option Text
set_value key raw = elim (get_key key raw) [
  | some v ↦ if is_nil (trim v) then none else some (trim v)
  | none ↦ none
]

abbrev pub or_default : {A : Type 0} → A → Option A → A
or_default d none = d
or_default d (some a) = a

-- `parse_int` and `parse_float`, with the parser of the type
unfoldable pub parse_number : {A : Type 0} → (Text → Option A) → List (Text × Text) → Text → A → A
parse_number parse raw key default = elim (set_value key raw) [
  | some v ↦ or_default default (parse v)
  | none ↦ default
]

unfoldable pub trim_end_slashes : Text → Text
trim_end_slashes [] = []
trim_end_slashes (c ∷ s) =
    let rest = trim_end_slashes s in if is_nil rest && c == b'/' then [] else c ∷ rest

unfoldable pub map_container_path : Text → Text → Text
map_container_path prefix container_path = elim (strip_prefix (codes "/data/") container_path) [
  | some rest ↦ trim_end_slashes prefix ++ b'/' ∷ rest
  | none ↦ container_path
]

unfoldable pub map_host_to_jellyfin : Text → Text → Text → Text
map_host_to_jellyfin host_prefix jellyfin_root host_path =
    elim (strip_prefix (trim_end_slashes host_prefix) host_path) [
      | some rest ↦ trim_end_slashes jellyfin_root ++ rest
      | none ↦ host_path
    ]

-- Exclusive or of two bytes, over the eight bits from the lowest
unfoldable pub xor_bits : ℕ → ℕ → ℕ → ℕ
xor_bits zero a b = 0
xor_bits (suc bits) a b = (if a % 2 == b % 2 then 0 else 1) + 2 * xor_bits bits (a / 2) (b / 2)

abbrev pub fnv_step : ℕ → ℕ → ℕ
fnv_step hash b = ((hash - hash % 256 + xor_bits 8 (hash % 256) b) * 0x100000001b3) % 2 ^ 64

abbrev pub fnv_from : ℕ → List ℕ → ℕ
fnv_from hash [] = hash
fnv_from hash (b ∷ bytes) = fnv_from (fnv_step hash b) bytes

unfoldable pub fnv1a64 : List ℕ → ℕ
fnv1a64 bytes = fnv_from 0xcbf29ce484222325 bytes

abbrev pub is_ascii_alphabetic : ℕ → Bool
is_ascii_alphabetic c = (leb b'A' c && leb c b'Z') || (leb b'a' c && leb c b'z')

unfoldable pub is_scheme : Text → Bool
is_scheme [] = false
is_scheme (c ∷ s) =
    is_ascii_alphabetic c
    && all (λ d. is_ascii_alphabetic d || is_digit d || d == b'+' || d == b'-' || d == b'.') s

unfoldable pub entity_colon : Text → Bool
entity_colon lower =
    contains (codes "&#58") lower
    || contains (codes "&#x3a") lower
    || contains (codes "&colon") lower
