-- ===== src/Srt/Merge/Pairs.antt =====
-- When `cps_merge` joins two cues, and to what.
use asrsub.Prelude.{
  ℕ, ◌+◌, ◌/◌, ◌≤◌, ◌≡◌, refl, sym, ◌∙◌, Bool, true, false, ◌∷◌, ◌++◌, arith, length, F64, subst,
  Bool-cases, inl, inr, ◌⊎◌, length-append, le→leb, lt→leb, leb→le, and_left, and_right, ◌<◌,
}
use asrsub.Text.{nl}
use asrsub.Srt.{Cue}
use asrsub.Srt.Merge.{line_count, Limits, in_limit, joined_len, separator, absorb, fits}

module _ (F : F64) (limits : Limits F) where
  open F use {Num, of_ℕ, of_diff, mul, div, lt, le}
  open limits use {max_cps, max_chars, max_dur_ms, max_gap_ms}

  -- The reading speed is over the limit; that of a duration that is not positive is infinite.
  abbrev pub TooFast : Cue → Type 0
  TooFast c =
      let dur_s = div (of_diff c.end_ms c.start_ms) (of_ℕ 1000) in
      (le dur_s (of_ℕ 0) ≡ true) ⊎ (le (div (of_ℕ (length c.text)) dur_s) max_cps ≡ false)

  -- The two cues together are within every limit: on the gap between them, lines, chars, reading speed and
  -- duration, which is positive.
  pub record Fits (cur nxt : Cue) : Type 0 where
    pub gap : nxt.start_ms ≤ cur.end_ms + max_gap_ms
    pub lines : line_count cur.text + line_count nxt.text ≤ 2
    pub chars : length cur.text + 1 + length nxt.text ≤ max_chars
    pub positive : lt (of_ℕ 0) (div (of_diff nxt.end_ms cur.start_ms) (of_ℕ 1000)) ≡ true
    pub speed :
        le
          (div
            (of_ℕ (length cur.text + 1 + length nxt.text))
            (div (of_diff nxt.end_ms cur.start_ms) (of_ℕ 1000)))
          max_cps
        ≡ true
    pub duration :
        le (mul (div (of_diff nxt.end_ms cur.start_ms) (of_ℕ 1000)) (of_ℕ 1000)) (of_ℕ max_dur_ms)
        ≡ true

  -- From the start of the first to the end of the second, with both texts; between them stands a space
  -- where they take at most half of the chars allowed, and a line feed otherwise.
  abbrev pub IsJoin : Cue → Cue → Cue → Type 0
  IsJoin cur nxt joined =
      (joined.start_ms ≡ cur.start_ms)
      × (joined.end_ms ≡ nxt.end_ms)
      × (length cur.text + 1 + length nxt.text ≤ max_chars / 2
          → joined.text ≡ cur.text ++ b' ' ∷ nxt.text)
      × (max_chars / 2 < length cur.text + 1 + length nxt.text
          → joined.text ≡ cur.text ++ nl ∷ nxt.text)

  pub in_limit-TooFast : (c : Cue) → in_limit F limits c ≡ false → TooFast c
  unfolding in_limit
  in_limit-TooFast c h =
      elim (Bool-cases (le (div (of_diff c.end_ms c.start_ms) (of_ℕ 1000)) (of_ℕ 0))) [
        | inl e ↦ inl e
        | inr e ↦ inr (speed e)
      ]
    where
      speed :
          le (div (of_diff c.end_ms c.start_ms) (of_ℕ 1000)) (of_ℕ 0) ≡ false
          → le (div (of_ℕ (length c.text)) (div (of_diff c.end_ms c.start_ms) (of_ℕ 1000))) max_cps
            ≡ false
      speed e = ground arith

  pub in_limit-slow : (c : Cue) → in_limit F limits c ≡ true → TooFast c → ⊥
  unfolding in_limit
  in_limit-slow c h (inl e) = ground arith
  in_limit-slow c h (inr e) =
      elim (Bool-cases (le (div (of_diff c.end_ms c.start_ms) (of_ℕ 1000)) (of_ℕ 0))) [
        | inl k ↦ ground arith
        | inr k ↦ ground arith
      ]

  pub length-absorb :
      (cur nxt : Cue)
      → length (absorb F limits cur nxt).text ≡ length cur.text + 1 + length nxt.text
  unfolding absorb
  length-absorb cur nxt =
      length-append cur.text (separator F limits cur nxt ∷ nxt.text) ∙ omega arith

  pub absorb-IsJoin : (cur nxt : Cue) → IsJoin cur nxt (absorb F limits cur nxt)
  unfolding absorb separator
  absorb-IsJoin cur nxt = (
    refl,
    refl,
    λ h. rw (le→leb (joined_len F limits cur nxt) (max_chars / 2) h) refl,
    λ h. rw (lt→leb (joined_len F limits cur nxt) (max_chars / 2) h) refl,
  )

  abbrev speed_of : ℕ → Cue → Cue → Bool
  speed_of n cur nxt = le (div (of_ℕ n) (div (of_diff nxt.end_ms cur.start_ms) (of_ℕ 1000))) max_cps

  pub fits-Fits : (cur nxt : Cue) → fits F limits cur nxt ≡ true → Fits cur nxt
  unfolding fits
  fits-Fits cur nxt h =
      let r1 = and_right _ _ h in
      let r2 = and_right _ _ r1 in
      let r3 = and_right _ _ r2 in
      let r4 = and_right _ _ r3 in
      record {
        gap = leb→le _ _ (and_left _ _ h);
        lines = leb→le _ _ (and_left _ _ r1);
        chars = leb→le _ _ (and_left _ _ r2);
        positive = and_left _ _ r3;
        speed = subst (λ n. speed_of n cur nxt ≡ true) (length-absorb cur nxt) (and_left _ _ r4);
        duration = and_right _ _ r4;
      }

  pub Fits-fits : (cur nxt : Cue) → Fits cur nxt → fits F limits cur nxt ≡ true
  unfolding fits
  Fits-fits cur nxt f =
      rw
        (
          le→leb _ _ f.gap,
          le→leb _ _ f.lines,
          le→leb _ _ f.chars,
          f.positive,
          subst (λ n. speed_of n cur nxt ≡ true) (sym (length-absorb cur nxt)) f.speed,
          f.duration,
        )
        refl
