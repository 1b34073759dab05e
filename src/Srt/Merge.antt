-- ===== src/Srt/Merge.antt =====
-- `cps_merge` of src/srt.rs, over an abstract `f64`.
pub mod Runs
pub mod Pairs
use asrsub.Prelude.{
  ℕ, suc, ◌+◌, ◌/◌, ◌≤◌, ◌≡◌, refl, sym, ◌∙◌, Bool, true, false, ◌&&◌, List, [], ◌∷◌, ◌++◌, arith,
  leb, ◌==◌, if◌then◌else◌, length, F64, All, All-mono, subst, Bool-cases, inl, inr, append_assoc,
  ◌⊎◌, length-append,
}
use mathlib.Core.List.{Mem, mem-append_right, mem-cons_self}
use asrsub.Text.{Text, nl}
use asrsub.Srt.{Cue}

-- `text.matches('\n').count() + 1`
unfoldable pub line_count : Text → ℕ
line_count [] = 1
line_count (c ∷ s) = let more = line_count s in if c == nl then suc more else more

module _ (F : F64) where
  open F use {Num, of_ℕ, of_diff, mul, div, lt, le}

  pub record Limits : Type 0 where
    pub max_cps : Num
    pub max_chars : ℕ
    pub max_dur_ms : ℕ
    pub max_gap_ms : ℕ

module _ (F : F64) (limits : Limits F) where
  open F use {Num, of_ℕ, of_diff, mul, div, lt, le}
  open limits use {max_cps, max_chars, max_dur_ms, max_gap_ms}

  -- `cps_of(..) <= max_cps`: an empty or negative duration is an infinite speed.
  unfoldable pub in_limit : Cue → Bool
  in_limit c =
      let dur_s = div (of_diff c.end_ms c.start_ms) (of_ℕ 1000) in
      if le dur_s (of_ℕ 0) then false else le (div (of_ℕ (length c.text)) dur_s) max_cps

  abbrev pub joined_len : Cue → Cue → ℕ
  joined_len cur nxt = length cur.text + 1 + length nxt.text

  unfoldable pub separator : Cue → Cue → ℕ
  separator cur nxt = if leb (joined_len cur nxt) (max_chars / 2) then b' ' else nl

  unfoldable pub absorb : Cue → Cue → Cue
  absorb cur nxt = record cur {
    end_ms = nxt.end_ms;
    text = cur.text ++ separator cur nxt ∷ nxt.text;
  }

  -- The signed gap `nxt.start - cur.end` is compared with the sign moved over.
  unfoldable pub fits : Cue → Cue → Bool
  unfolding absorb
  fits cur nxt =
      let combined_dur_s = div (of_diff nxt.end_ms cur.start_ms) (of_ℕ 1000) in
      leb nxt.start_ms (cur.end_ms + max_gap_ms)
      && (leb (line_count cur.text + line_count nxt.text) 2
          && (leb (joined_len cur nxt) max_chars
              && (lt (of_ℕ 0) combined_dur_s
                  && (le (div (of_ℕ (length (absorb cur nxt).text)) combined_dur_s) max_cps
                      && le (mul combined_dur_s (of_ℕ 1000)) (of_ℕ max_dur_ms)))))

  -- The loop, with the running head `cur`.
  unfoldable pub merge_from : Cue → List Cue → List Cue
  merge_from cur [] = cur ∷ []
  merge_from cur (nxt ∷ rest) = elim (in_limit cur) [
    | true ↦ cur ∷ merge_from nxt rest
    | false ↦ elim (fits cur nxt) [
      | true ↦ merge_from (absorb cur nxt) rest
      | false ↦ cur ∷ merge_from nxt rest
    ]
  ]

  unfoldable pub cps_merge : List Cue → List Cue
  unfolding merge_from
  cps_merge [] = []
  cps_merge (first ∷ rest) = merge_from first rest
