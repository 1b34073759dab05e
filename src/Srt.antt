-- ===== src/Srt.antt =====
-- src/srt.rs: the cue, timestamps, the tolerant parser and the writer. The passes over cues and
-- the text guards are in the modules below this one.
pub mod Timestamp
pub mod WrittenBlock
pub mod RoundTrip
pub mod Contiguous
pub mod Merge
pub mod SplitLong
pub mod Validate
pub mod Guard
use asrsub.Prelude.{
  ℕ, ◌+◌, ◌-◌, ◌*◌, ◌/◌, ◌%◌, ◌^◌, Bool, true, false, not, ◌&&◌, ◌||◌, List, [], ◌∷◌, ◌++◌, Option,
  none, some, ltb, ◌==◌, if◌then◌else◌, ◌>>=◌, is_nil, length, take, replicate, u32_mod, u32_max,
  min, max, map, any,
}
use asrsub.Text.{
  Text, codes, nl, trim, split_char, split_once, split_once_by, contains, split_blank, replace_crlf,
  lines, join,
}
use asrsub.Text.Decimal.{to_string, pad_left, parse_uint}

abbrev pub ai_marker : Text
ai_marker = codes "[AI-generated by ASRSub]"

pub record Cue : Type 0 where
  pub start_ms : ℕ
  pub end_ms : ℕ
  pub text : Text

abbrev pub arrow : Text
arrow = b'-' ∷ b'-' ∷ b'>' ∷ []

parse_u32 : Text → Option ℕ
parse_u32 = parse_uint u32_max

abbrev pub is_fraction_mark : ℕ → Bool
is_fraction_mark c = c == b',' || c == b'.'

-- `format!("{:0<3}", ms)`
unfoldable pub pad_right_3 : Text → Text
pad_right_3 s = s ++ replicate (3 - length s) b'0'

-- The pieces between the colons, and the sum in wrapping `u32` arithmetic.
unfoldable pub sum_parts : List Text → Option ℕ
unfolding parse_u32 pad_right_3
sum_parts (h ∷ m ∷ rest ∷ _) = do
  hours ← parse_u32 (trim h)
  minutes ← parse_u32 (trim m)
  (s, ms) ← split_once_by is_fraction_mark rest
  seconds ← parse_u32 (trim s)
  millis ← parse_u32 (take 3 (pad_right_3 (trim ms)))
  some ((hours * 3_600_000 + minutes * 60_000 + seconds * 1000 + millis) % u32_mod)
sum_parts _ = none

unfoldable pub parse_ts : Text → Option ℕ
parse_ts v = sum_parts (split_char b':' (trim v))

unfoldable pub fmt_ts : ℕ → Text
fmt_ts ms =
    let h = ms / 3_600_000 in
    let rem = ms % 3_600_000 in
    let m = rem / 60_000 in
    let rem' = rem % 60_000 in
    let s = rem' / 1000 in
    let msr = rem' % 1000 in
    pad_left 2 h ++ b':' ∷ (pad_left 2 m ++ b':' ∷ (pad_left 2 s ++ b',' ∷ pad_left 3 msr))

unfoldable pub parse_ts_line : Text → Option (ℕ × ℕ)
parse_ts_line line = do (a, b) ← split_once arrow line; s ← parse_ts a; e ← parse_ts b; some (s, e)

-- The locals of the loop over one block's lines.
pub record Block : Type 0 where
  pub start : Option ℕ
  pub end : Option ℕ
  pub body : List Text
  pub ts_seen : Bool

abbrev pub new_block : Block
new_block = record { start = none; end = none; body = []; ts_seen = false }

abbrev see_timestamp : Block → Option (ℕ × ℕ) → Block
see_timestamp b none = b
see_timestamp b (some (s, e)) = record b { start = some s; end = some e; ts_seen = true }

unfoldable pub read_line : Block → Text → Block
read_line b raw =
    let line = trim raw in
    if is_nil line
    then b
    else if not b.ts_seen && contains arrow line
    then see_timestamp b (parse_ts_line line)
    else if b.ts_seen
    then record b { body = b.body ++ line ∷ [] }
    else b

unfoldable pub read_lines : Block → List Text → Block
read_lines b [] = b
read_lines b (line ∷ rest) = read_lines (read_line b line) rest

abbrev finish_with : Option ℕ → Option ℕ → Text → List Cue
finish_with (some s) (some e) text =
    if is_nil text then [] else record { start_ms = s; end_ms = e; text = text } ∷ []
finish_with _ _ text = []

unfoldable pub finish : Block → List Cue
finish b = finish_with b.start b.end (trim (join (b' ' ∷ []) b.body))

unfoldable pub parse_block : Text → List Cue
parse_block raw =
    let block = trim raw in if is_nil block then [] else finish (read_lines new_block (lines block))

unfoldable pub parse_blocks : List Text → List Cue
parse_blocks [] = []
parse_blocks (block ∷ rest) = parse_block block ++ parse_blocks rest

unfoldable pub parse_srt : Text → List Cue
parse_srt text = parse_blocks (split_blank (replace_crlf text))

-- `{idx}\n{start} --> {end}\n{text}\n\n`
unfoldable pub write_cue : ℕ → Cue → Text
write_cue idx c =
    to_string idx
    ++ nl
      ∷ ((fmt_ts c.start_ms ++ b' ' ∷ (arrow ++ b' ' ∷ fmt_ts c.end_ms))
          ++ nl ∷ (c.text ++ nl ∷ nl ∷ []))

unfoldable pub write_cues : ℕ → List Cue → Text
write_cues idx [] = []
write_cues idx (c ∷ rest) = write_cue idx c ++ write_cues ((idx + 1) % u32_mod) rest

abbrev min_start : ℕ → List Cue → ℕ
min_start least [] = least
min_start least (c ∷ rest) = min_start (min least c.start_ms) rest

-- The end of the marker cue: before dialogue that starts within two seconds, never zero.
unfoldable pub marker_end : List Cue → ℕ → ℕ
marker_end [] marker_ms = max marker_ms 1
marker_end (c ∷ rest) marker_ms =
    let first = min_start c.start_ms rest in max (if ltb first 2000 then first - 1 else marker_ms) 1

abbrev pub marker_cue : List Cue → ℕ → Cue
marker_cue cues marker_ms = record {
  start_ms = 0;
  end_ms = marker_end cues marker_ms;
  text = ai_marker;
}

-- `fmt_ts(0)` is the marker's literal start `00:00:00,000`.
unfoldable pub write_srt : List Cue → Bool → ℕ → Text
write_srt cues marker marker_ms =
    if marker
    then write_cue 1 (marker_cue cues marker_ms) ++ write_cues 2 cues
    else write_cues 1 cues

unfoldable pub has_ai_marker_text : Text → Bool
has_ai_marker_text = contains (codes "AI-generated by ASRSub")

unfoldable pub strip_marker : List Cue → List Cue
strip_marker [] = []
strip_marker (c ∷ rest) =
    let kept = strip_marker rest in if has_ai_marker_text c.text then kept else c ∷ kept

-- `zip` stops at the shorter list.
unfoldable pub retime : List Cue → List Text → List Cue
retime [] texts = []
retime (c ∷ cues) [] = []
retime (c ∷ cues) (t ∷ texts) = record c { text = t } ∷ retime cues texts
