-- ===== src/Tests/SrtTests.antt =====
-- Runs of the passes of src/srt.rs and of the endpoint pool, with natural numbers in place of `f64`.
use asrsub.Prelude.{
  sort_by_key, ℕ, ◌+◌, ◌-◌, ◌*◌, ◌/◌, ◌≤◌, ◌<◌, ◌≡◌, ◌≢◌, refl, true, false, List, [], ◌∷◌, some,
  F64, ltb, leb, All, arith, Memᴰ,
}
use mathlib.Core.List.{Perm}
use asrsub.Text.{
  Text, codes, join, split_whitespace, is_whitespace, trim_start, trim_end, trim, contains,
}
use asrsub.Srt.{
  Cue, parse_srt, write_srt, strip_marker, marker_cue, parse_ts, fmt_ts, has_ai_marker_text,
}
use asrsub.Srt.WrittenBlock.{IsClean}
use asrsub.Srt.RoundTrip.{parse_srt-write_srt, parse_srt-write_srt_marked, strip_marker-parse_srt}
use asrsub.Srt.Timestamp.{parse_ts-fmt_ts}
use asrsub.Srt.Contiguous.{
  start, IsTimeline, ensure_contiguous, ensure_contiguous-NoOverlap, NoOverlap, texts,
}
use asrsub.Srt.Merge.{Limits, cps_merge}
use asrsub.Srt.Merge.Runs.{cps_merge-Grouped, cps_merge-KeptOrBounded, Grouped, KeptOrBounded}
use asrsub.Srt.SplitLong.{split_long_cue, split_by_chars}
use asrsub.Srt.SplitLong.Chars.{split_long_cue-Tiles, split_by_chars-overlong, Tiles, all_text}
use asrsub.Srt.SplitLong.Words.{split_long_cue-words}
use asrsub.Srt.Validate.{
  validate_timeline, validate_body, body_of, check_cue, check_rest, check_pair, check_span,
  count_pair,
}
use asrsub.Srt.Validate.Sound.{IsSane, validate_timeline-IsTimeline}
use asrsub.Provider.{EndpointHealth, fresh, banned, failure, success, ordered_endpoints}
use asrsub.Provider.Breaker.{
  after, had_three, failures-bounds, banned-had_three, three_failures-banned,
}
use asrsub.Provider.Ordering.{ordered_endpoints-complete, ordered_endpoints-ne_nil}

-- Whole numbers that round down.
abbrev pub whole : F64
whole = record {
  Num = ℕ;
  of_ℕ = λ n. n;
  of_diff = ◌-◌;
  mul = ◌*◌;
  div = ◌/◌;
  sub = ◌-◌;
  add = ◌+◌;
  lt = ltb;
  le = leb;
  to_u32 = λ n. n;
}

abbrev cue : ℕ → ℕ → Text → Cue
cue s e t = record { start_ms = s; end_ms = e; text = t }

abbrev two_cues : List Cue
two_cues = cue 3000 4000 (codes "ab") ∷ cue 4500 6000 (codes "cd") ∷ []

two_cues-IsClean : All IsClean two_cues
unfolding trim_start trim_end is_whitespace
two_cues-IsClean = (
  record {
    start_fits = omega arith;
    end_fits = omega arith;
    one_line = omega arith;
    no_cr = omega arith;
    trimmed = (refl, refl);
    nonempty = λ e. cc;
  },
  (
    record {
      start_fits = omega arith;
      end_fits = omega arith;
      one_line = omega arith;
      no_cr = omega arith;
      trimmed = (refl, refl);
      nonempty = λ e. cc;
    },
    tt,
  ),
)

parse_srt-write_srt_example : parse_srt (write_srt two_cues false 2000) ≡ two_cues
parse_srt-write_srt_example = parse_srt-write_srt two_cues 2000 two_cues-IsClean

parse_srt-write_srt_marked_example :
    parse_srt (write_srt two_cues true 2000) ≡ marker_cue two_cues 2000 ∷ two_cues
parse_srt-write_srt_marked_example =
    parse_srt-write_srt_marked two_cues 2000 two_cues-IsClean (omega arith)

two_cues-unmarked : All (λ c. has_ai_marker_text c.text ≡ false) two_cues
unfolding has_ai_marker_text contains
two_cues-unmarked = (refl, (refl, tt))

strip_marker-parse_srt_example : strip_marker (parse_srt (write_srt two_cues true 2000)) ≡ two_cues
strip_marker-parse_srt_example =
    strip_marker-parse_srt two_cues 2000 two_cues-IsClean two_cues-unmarked (omega arith)

parse_ts-fmt_ts_example : parse_ts (fmt_ts 5025678) ≡ some 5025678
parse_ts-fmt_ts_example = parse_ts-fmt_ts 5025678 (omega arith)

abbrev crossed : List Cue
crossed = cue 5 9 (codes "b") ∷ cue 0 7 (codes "a") ∷ []

ensure_contiguous-NoOverlap_example :
    NoOverlap (ensure_contiguous crossed)
    × (texts (ensure_contiguous crossed) ≡ texts (sort_by_key start crossed))
    × Perm (texts (ensure_contiguous crossed)) (codes "b" ∷ codes "a" ∷ [])
ensure_contiguous-NoOverlap_example = ensure_contiguous-NoOverlap crossed

abbrev limits : Limits whole
limits = record { max_cps = 17; max_chars = 42; max_dur_ms = 7000; max_gap_ms = 500 }

abbrev fast_cues : List Cue
fast_cues = cue 0 1000 (codes "abcdefghijklmnopqrst") ∷ cue 1000 3000 (codes "u") ∷ []

cps_merge-Grouped_example : Grouped whole limits fast_cues (cps_merge whole limits fast_cues)
cps_merge-Grouped_example = cps_merge-Grouped whole limits fast_cues

cps_merge-KeptOrBounded_example :
    All (KeptOrBounded whole limits fast_cues) (cps_merge whole limits fast_cues)
cps_merge-KeptOrBounded_example = cps_merge-KeptOrBounded whole limits fast_cues

abbrev long_cue : Cue
long_cue = cue 1000 9000 (codes "abcdef")

split_long_cue-Tiles_example :
    Tiles 1000 9000 (split_long_cue whole long_cue 3000)
    × (all_text (split_long_cue whole long_cue 3000) ≡ codes "abcdef")
unfolding split_whitespace is_whitespace
split_long_cue-Tiles_example =
    split_long_cue-Tiles whole long_cue 3000 (omega arith) (omega arith) (omega arith) (λ e. cc)
      (omega arith) (omega arith)

abbrev wordy_cue : Cue
wordy_cue = cue 1000 9000 (codes "ab cd ef")

split_long_cue-words_example :
    (join (codes " ") (texts (split_long_cue whole wordy_cue 3000))
      ≡ join (codes " ") (split_whitespace (codes "ab cd ef")))
    × All (λ p. p.start_ms ≤ p.end_ms) (split_long_cue whole wordy_cue 3000)
unfolding split_whitespace is_whitespace
split_long_cue-words_example =
    split_long_cue-words whole wordy_cue 3000 (omega arith) (λ e. cc) (omega arith)

abbrev three_chars : Cue
three_chars = cue 0 10_000 (codes "abc")

split_by_chars-overlong_example :
    (p : Cue) × (rest : List Cue) × (split_by_chars three_chars 10_000 6000 ≡ p ∷ rest)
    × (p.start_ms + 6000 < p.end_ms)
split_by_chars-overlong_example =
    split_by_chars-overlong three_chars 10_000 6000 refl (omega arith) (omega arith) (omega arith)
      refl (omega arith)

abbrev endpoints : List ℕ
endpoints = 7 ∷ 8 ∷ []

abbrev tripped : EndpointHealth
tripped = record { failures = 0; banned_until = 70_000 }

ordered_endpoints-complete_example :
    Memᴰ (1, 8) (ordered_endpoints endpoints (tripped ∷ fresh ∷ []) 60_000)
unfolding banned
ordered_endpoints-complete_example =
    ordered_endpoints-complete endpoints (tripped ∷ fresh ∷ []) 60_000 1 8 refl refl

ordered_endpoints-ne_nil_example : ordered_endpoints endpoints (tripped ∷ tripped ∷ []) 60_000 ≢ []
ordered_endpoints-ne_nil_example =
    ordered_endpoints-ne_nil endpoints (tripped ∷ tripped ∷ []) 60_000 (λ e. cc)

failures-bounds_example :
    ((after (failure 5 ∷ success ∷ [])).failures < 3)
    × ((after (failure 5 ∷ success ∷ [])).failures ≤ 1)
failures-bounds_example = failures-bounds (failure 5 ∷ success ∷ [])

three_failures-banned_example :
    banned (after (failure 30 ∷ failure 20 ∷ failure 10 ∷ success ∷ [])) 30 ≡ true
three_failures-banned_example =
    three_failures-banned (success ∷ []) 10 20 30 (omega arith) (omega arith) (omega arith)
      (omega arith)

banned-had_three_example : had_three (failure 30 ∷ failure 20 ∷ failure 10 ∷ success ∷ []) ≡ true
banned-had_three_example =
    banned-had_three (failure 30 ∷ failure 20 ∷ failure 10 ∷ success ∷ []) 30
      three_failures-banned_example

timely_two : validate_timeline whole two_cues 3000 (some 7) ≡ []
unfolding validate_timeline validate_body body_of check_cue check_rest check_pair check_span
    count_pair has_ai_marker_text contains trim_start trim_end is_whitespace trim
timely_two = refl

validate_timeline-IsTimeline_example :
    (two_cues ≢ []) × IsTimeline two_cues × All (IsSane 3000) two_cues
unfolding body_of has_ai_marker_text contains
validate_timeline-IsTimeline_example =
    validate_timeline-IsTimeline whole 3000 two_cues (some 7) (omega arith, (omega arith, tt))
      timely_two
