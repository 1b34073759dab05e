-- ===== src/Srt/SplitLong.antt =====
-- `split_long_cues` of src/srt.rs, over an abstract `f64`. A `max_ms` of zero makes the source
-- panic in `div_ceil` of a cue of fewer than two words; here it divides to zero, and the theorems on such
-- cues ask for a positive one.
pub mod Chars
pub mod Words
use asrsub.Prelude.{
  ℕ, zero, suc, ◌+◌, ◌-◌, ◌*◌, ◌/◌, ◌%◌, ◌^◌, ◌≤◌, ◌<◌, min, max, Bool, true, false, ◌&&◌, ◌||◌,
  List, [], ◌∷◌, ◌++◌, leb, ltb, if◌then◌else◌, is_nil, length, take, drop, u32_mod, F64,
}
use asrsub.Text.{Text, split_whitespace, join}
use asrsub.Srt.{Cue}

abbrev pub div_ceil : ℕ → ℕ → ℕ
div_ceil a b = (a + b - 1) / b

-- `start + (span as usize * k / total) as u32`
unfoldable pub offset : ℕ → ℕ → ℕ → ℕ → ℕ
offset start span total k = (start + (span * k % 2 ^ 64 / total) % u32_mod) % u32_mod

-- The piece with index `k` of a cue whose `total` chars are cut into chunks of `per`.
unfoldable pub char_piece : Cue → ℕ → ℕ → ℕ → ℕ → Text → Cue
unfolding offset
char_piece c span total per k chunk =
    let lo = min (k * per) total in
    let hi = min ((k + 1) * per) total in
    let s = offset c.start_ms span total lo in
    let e = if leb total hi then c.end_ms else offset c.start_ms span total hi in
    record { start_ms = s; end_ms = max e s; text = chunk }

-- `chars.chunks(per).enumerate()`; as many rounds as chars are enough: `char_pieces-text`.
unfoldable pub char_pieces : ℕ → Cue → ℕ → ℕ → ℕ → ℕ → Text → List Cue
unfolding char_piece
char_pieces zero c span total per k rest = []
char_pieces (suc fuel) c span total per k rest = elim (is_nil rest) [
  | true ↦ []
  | false ↦
      char_piece c span total per k (take per rest)
      ∷ char_pieces fuel c span total per (k + 1) (drop per rest)
]

abbrev pub chunk_size : ℕ → ℕ → ℕ → ℕ
chunk_size span max_ms total = max (div_ceil total (max (div_ceil span max_ms) 2)) 1

unfoldable pub split_by_chars : Cue → ℕ → ℕ → List Cue
unfolding char_pieces
split_by_chars c span max_ms =
    let total = max (length c.text) 1 in
    char_pieces (length c.text) c span total (chunk_size span max_ms total) 0 c.text

module _ (F : F64) where
  open F use {Num, of_ℕ, mul, div, le, to_u32}

  abbrev pub piece : ℕ → ℕ → List Text → Cue
  piece s e cur = record { start_ms = s; end_ms = max e s; text = join (b' ' ∷ []) cur }

  -- Whether the words of `cur` are flushed, and where their piece then ends.
  abbrev pub is_full : Num → ℕ → List Text → List Text → Bool
  is_full per_word max_ms cur rest =
      le (of_ℕ max_ms) (mul (of_ℕ (length cur)) per_word) || is_nil rest

  abbrev pub cut_at : ℕ → Num → List Text → ℕ → List Text → ℕ
  cut_at end_ms per_word cur cur_start rest =
      if is_nil rest
      then end_ms
      else min ((cur_start + to_u32 (mul (of_ℕ (length cur)) per_word)) % u32_mod) end_ms

  -- The loop over the words, with `cur` and `cur_start`.
  unfoldable pub word_pieces : ℕ → Num → ℕ → List Text → ℕ → List Text → List Cue
  word_pieces end_ms per_word max_ms cur cur_start [] =
      if is_nil cur then [] else piece cur_start end_ms cur ∷ []
  word_pieces end_ms per_word max_ms cur cur_start (w ∷ rest) =
      let cur' = cur ++ w ∷ [] in
      let e = cut_at end_ms per_word cur' cur_start rest in
      elim (is_full per_word max_ms cur' rest) [
        | true ↦ piece cur_start e cur' ∷ word_pieces end_ms per_word max_ms [] e rest
        | false ↦ word_pieces end_ms per_word max_ms cur' cur_start rest
      ]

  unfoldable pub split_long_cue : Cue → ℕ → List Cue
  split_long_cue c max_ms =
      let span = c.end_ms - c.start_ms in
      let words = split_whitespace c.text in
      if leb span max_ms || is_nil c.text
      then c ∷ []
      else if ltb (length words) 2
      then split_by_chars c span max_ms
      else word_pieces c.end_ms (div (of_ℕ span) (of_ℕ (length words))) max_ms [] c.start_ms words

  unfoldable pub split_long_cues : List Cue → ℕ → List Cue
  unfolding split_long_cue
  split_long_cues [] max_ms = []
  split_long_cues (c ∷ rest) max_ms = split_long_cue c max_ms ++ split_long_cues rest max_ms
