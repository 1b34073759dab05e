-- ===== src/Srt/Validate.antt =====
-- `validate_timeline` of src/srt.rs, over an abstract `f64`. A violation stands for its message and
-- carries the numbers that the message prints. `0.80` and `0.30` are `8 / 10` and `3 / 10`.
pub mod Sound
use asrsub.Prelude.{
  ℕ, zero, suc, ◌+◌, ◌-◌, ◌*◌, ◌/◌, ◌%◌, ◌≤◌, ◌<◌, ◌≡◌, ◌≢◌, refl, Bool, true, false, not, ◌&&◌,
  List, [], ◌∷◌, ◌++◌, Option, none, some, ltb, leb, ◌==◌, if◌then◌else◌, is_nil, max, u32_mod, F64,
}
use asrsub.Text.{Text, trim}
use asrsub.Srt.{Cue, has_ai_marker_text}

-- The leading marker is exempt.
unfoldable pub body_of : List Cue → List Cue
body_of [] = []
body_of (first ∷ rest) = if has_ai_marker_text first.text then rest else first ∷ rest

module _ (F : F64) where
  open F use {Num, of_ℕ, mul, div, lt}

  pub data Violation : Type 0 where
    no_cues : Violation
    empty_text : ℕ → Violation
    end_before_start : ℕ → Violation
    duration : ℕ → ℕ → ℕ → Violation
    not_monotonic : ℕ → Violation
    overlaps : ℕ → Violation
    pileup : ℕ → Violation
    coverage : Num → Num → Violation
    internal_gap : Num → Violation

  -- `if test { v.push(x) }`
  abbrev pub when : Bool → Violation → List Violation
  when true x = x ∷ []
  when false x = []

  -- `end - start`, which wraps in a release build.
  abbrev pub span_of : Cue → ℕ
  span_of c = (c.end_ms + u32_mod - c.start_ms) % u32_mod

  unfoldable pub check_cue : ℕ → ℕ → Cue → List Violation
  check_cue max_cue_ms i c =
      when (is_nil (trim c.text)) (empty_text i)
      ++ (when (ltb c.end_ms c.start_ms) (end_before_start i)
          ++ when (ltb max_cue_ms (span_of c)) (duration i (span_of c) max_cue_ms))

  unfoldable pub check_pair : ℕ → Cue → Cue → List Violation
  check_pair i prev c =
      when (ltb c.start_ms prev.start_ms) (not_monotonic i)
      ++ when (ltb c.start_ms prev.end_ms) (overlaps i)

  -- `pileup`, `worst_pileup` and `worst_gap_ms`; fewer than 2^32 cues cannot pass the limit of `u32`.
  pub record Totals : Type 0 where
    pub run : ℕ
    pub worst_run : ℕ
    pub worst_gap_ms : ℕ

  unfoldable pub count_pair : Cue → Cue → Totals → Totals
  count_pair prev c t =
      let gap = max t.worst_gap_ms (c.start_ms - max prev.end_ms prev.start_ms) in
      if c.start_ms == prev.start_ms
      then record { run = t.run + 1; worst_run = max t.worst_run (t.run + 1); worst_gap_ms = gap }
      else record { run = 1; worst_run = t.worst_run; worst_gap_ms = gap }

  -- The loop after the first cue.
  unfoldable pub check_rest : ℕ → ℕ → Cue → List Cue → Totals → List Violation × Totals
  check_rest max_cue_ms i prev [] t = ([], t)
  check_rest max_cue_ms i prev (c ∷ rest) t =
      let later = check_rest max_cue_ms (i + 1) c rest (count_pair prev c t) in
      (check_cue max_cue_ms i c ++ (check_pair i prev c ++ later.0), later.1)

  abbrev pub first_totals : Totals
  first_totals = record { run = 1; worst_run = 1; worst_gap_ms = 0 }

  abbrev max_end : ℕ → List Cue → ℕ
  max_end most [] = most
  max_end most (c ∷ rest) = max_end (max most c.end_ms) rest

  unfoldable pub check_span : Cue → List Cue → ℕ → Option Num → List Violation
  check_span first rest worst_gap_ms none = []
  check_span first rest worst_gap_ms (some dur) =
      let span_s = div (of_ℕ (max_end first.end_ms rest - first.start_ms)) (of_ℕ 1000) in
      let gap_s = div (of_ℕ worst_gap_ms) (of_ℕ 1000) in
      if lt (of_ℕ 0) dur
      then when (lt (div span_s dur) (div (of_ℕ 8) (of_ℕ 10))) (coverage span_s dur)
        ++ when (lt (div (of_ℕ 3) (of_ℕ 10)) (div gap_s dur)) (internal_gap gap_s)
      else []

  unfoldable pub validate_body : List Cue → ℕ → Option Num → List Violation
  validate_body [] max_cue_ms duration_s = no_cues ∷ []
  validate_body (first ∷ rest) max_cue_ms duration_s =
      let checked = check_rest max_cue_ms 1 first rest first_totals in
      check_cue max_cue_ms 0 first
      ++ (checked.0
          ++ (when (ltb 2 checked.1.worst_run) (pileup checked.1.worst_run)
              ++ check_span first rest checked.1.worst_gap_ms duration_s))

  unfoldable pub validate_timeline : List Cue → ℕ → Option Num → List Violation
  validate_timeline cues max_cue_ms duration_s = validate_body (body_of cues) max_cue_ms duration_s
