-- ===== src/Srt/RoundTrip.antt =====
-- `parse_srt` after `write_srt` of src/srt.rs.
use asrsub.Prelude.{
  ℕ, ◌+◌, ◌%◌, ◌<◌, ◌≡◌, ◌≢◌, refl, ap, ap₂, ◌∙◌, List, [], ◌∷◌, ◌++◌, arith, All, All-append, true,
  false, u32_mod, append_assoc,
}
use asrsub.Text.{
  Text, nl, cr, trim, split_once, contains, split_blank, trim_start, trim_end, is_whitespace,
}
use asrsub.Text.Decimal.{to_string, to_string-ne-nil}
use asrsub.Text.Split.{
  Lacks, replace_crlf-id, split_blank-end, split_blank-line_before, prepend_text,
}
use asrsub.Srt.{
  Cue, parse_block, parse_blocks, parse_srt, write_cue, write_cues, write_srt, marker_cue,
  marker_end, strip_marker, has_ai_marker_text,
}
use asrsub.Srt.WrittenBlock.{
  IsClean, ts_line, cue_block, to_string-Lacks, ts_line-Lacks, ts_line-ne-nil,
  parse_block-cue_block,
}

write_cue-append :
    (idx : ℕ) (c : Cue) (rest : Text)
    → write_cue idx c ++ rest
      ≡ to_string idx ++ nl ∷ (ts_line c.start_ms c.end_ms ++ nl ∷ (c.text ++ nl ∷ nl ∷ rest))
unfolding write_cue
write_cue-append idx c rest = simp append_assoc

-- A written cue is one block.
split_blank-write_cue :
    (idx : ℕ) (c : Cue) (rest : Text)
    → IsClean c
    → split_blank (write_cue idx c ++ rest) ≡ cue_block idx c ∷ split_blank rest
split_blank-write_cue idx c rest h =
    ap split_blank (write_cue-append idx c rest)
    ∙ split_blank-line_before (to_string idx) stamps _ (to_string-ne-nil idx)
        (to_string-Lacks idx nl (λ p. omega arith)) (ts_line-ne-nil c.start_ms c.end_ms)
        (ts_line-Lacks c.start_ms c.end_ms nl (omega arith))
    ∙ ap (prepend_text (to_string idx ++ nl ∷ [])) (
        split_blank-line_before stamps c.text (nl ∷ nl ∷ rest) (ts_line-ne-nil c.start_ms c.end_ms)
          (ts_line-Lacks c.start_ms c.end_ms nl (omega arith)) h.nonempty h.one_line
        ∙ ap (prepend_text (stamps ++ nl ∷ [])) (split_blank-end c.text rest h.nonempty h.one_line))
    ∙ ap (λ t. t ∷ split_blank rest) joined
  where
    stamps : Text
    stamps = ts_line c.start_ms c.end_ms

    joined : (to_string idx ++ nl ∷ []) ++ ((stamps ++ nl ∷ []) ++ c.text) ≡ cue_block idx c
    joined = simp append_assoc

write_cue-Lacks : (idx : ℕ) (c : Cue) → IsClean c → Lacks cr (write_cue idx c)
unfolding write_cue
write_cue-Lacks idx c h =
    All-append (λ d. d ≢ cr) (to_string idx) _ (to_string-Lacks idx cr (λ p. omega arith))
      (
        omega arith,
        All-append (λ d. d ≢ cr) (ts_line c.start_ms c.end_ms) _
            (ts_line-Lacks c.start_ms c.end_ms cr (omega arith))
            (omega arith, All-append (λ d. d ≢ cr) c.text _ h.no_cr (omega arith)),
      )

write_cues-Lacks : (idx : ℕ) (cues : List Cue) → All IsClean cues → Lacks cr (write_cues idx cues)
unfolding write_cues
write_cues-Lacks idx [] h = tt
write_cues-Lacks idx (c ∷ cues) h =
    All-append (λ d. d ≢ cr) (write_cue idx c) _ (write_cue-Lacks idx c h.0)
      (write_cues-Lacks ((idx + 1) % u32_mod) cues h.1)

parse_block-nil : parse_block [] ≡ []
unfolding parse_block trim
parse_block-nil = refl

parse_blocks-write_cues :
    (idx : ℕ) (cues : List Cue)
    → All IsClean cues
    → parse_blocks (split_blank (write_cues idx cues)) ≡ cues
unfolding parse_blocks write_cues
parse_blocks-write_cues idx [] h = unfold split_blank in rw parse_block-nil
parse_blocks-write_cues idx (c ∷ cues) h =
    ap parse_blocks (split_blank-write_cue idx c (write_cues ((idx + 1) % u32_mod) cues) h.0)
    ∙ ap₂ (λ (xs ys : List Cue). xs ++ ys) (parse_block-cue_block idx c h.0)
        (parse_blocks-write_cues ((idx + 1) % u32_mod) cues h.1)

parse_srt-write_cues :
    (idx : ℕ) (cues : List Cue) → All IsClean cues → parse_srt (write_cues idx cues) ≡ cues
unfolding parse_srt
parse_srt-write_cues idx cues h =
    rw (replace_crlf-id (write_cues idx cues) (write_cues-Lacks idx cues h))
      (parse_blocks-write_cues idx cues h)

-- Clean cues written without the marker are read back as they were.
pub parse_srt-write_srt :
    (cues : List Cue) (marker_ms : ℕ)
    → All IsClean cues
    → parse_srt (write_srt cues false marker_ms) ≡ cues
unfolding write_srt
parse_srt-write_srt cues marker_ms h = parse_srt-write_cues 1 cues h

write_srt-marker :
    (cues : List Cue) (marker_ms : ℕ)
    → write_srt cues true marker_ms ≡ write_cues 1 (marker_cue cues marker_ms ∷ cues)
unfolding write_srt write_cues
write_srt-marker cues marker_ms = refl

marker_end-lt :
    (cues : List Cue) (marker_ms : ℕ) → marker_ms < u32_mod → marker_end cues marker_ms < u32_mod
unfolding marker_end
marker_end-lt [] marker_ms h = ground arith
marker_end-lt (c ∷ cues) marker_ms h = ground arith

marker_cue-IsClean :
    (cues : List Cue) (marker_ms : ℕ) → marker_ms < u32_mod → IsClean (marker_cue cues marker_ms)
unfolding trim_start trim_end is_whitespace
marker_cue-IsClean cues marker_ms h = record {
  start_fits = omega arith;
  end_fits = marker_end-lt cues marker_ms h;
  one_line = omega arith;
  no_cr = omega arith;
  trimmed = (refl, refl);
  nonempty = λ e. cc;
}

-- With the marker the file reads back as the provenance cue, from 0 to its end, before the cues.
pub parse_srt-write_srt_marked :
    (cues : List Cue) (marker_ms : ℕ)
    → All IsClean cues
    → marker_ms < u32_mod
    → parse_srt (write_srt cues true marker_ms) ≡ marker_cue cues marker_ms ∷ cues
parse_srt-write_srt_marked cues marker_ms h m =
    ap parse_srt (write_srt-marker cues marker_ms)
    ∙ parse_srt-write_cues 1 (marker_cue cues marker_ms ∷ cues)
        (marker_cue-IsClean cues marker_ms m, h)

abbrev pub Unmarked : Cue → Type 0
Unmarked c = has_ai_marker_text c.text ≡ false

strip_marker-Unmarked : (cues : List Cue) → All Unmarked cues → strip_marker cues ≡ cues
unfolding strip_marker
strip_marker-Unmarked [] h = refl
strip_marker-Unmarked (c ∷ cues) h = rw (h.0, strip_marker-Unmarked cues h.1)

strip_marker-marker_cue :
    (cues : List Cue) (marker_ms : ℕ)
    → strip_marker (marker_cue cues marker_ms ∷ cues) ≡ strip_marker cues
unfolding strip_marker has_ai_marker_text contains split_once
strip_marker-marker_cue cues marker_ms = refl

-- A marked file that is read and stripped, as the ladder does, has the dialogue cues only.
pub strip_marker-parse_srt :
    (cues : List Cue) (marker_ms : ℕ)
    → All IsClean cues
    → All Unmarked cues
    → marker_ms < u32_mod
    → strip_marker (parse_srt (write_srt cues true marker_ms)) ≡ cues
strip_marker-parse_srt cues marker_ms h u m =
    ap strip_marker (parse_srt-write_srt_marked cues marker_ms h m)
    ∙ strip_marker-marker_cue cues marker_ms
    ∙ strip_marker-Unmarked cues u
