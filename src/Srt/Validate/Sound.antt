-- ===== src/Srt/Validate/Sound.antt =====
-- What a timeline without violations is.
use asrsub.Prelude.{
  ℕ, ◌+◌, ◌-◌, ◌%◌, ◌≤◌, ◌<◌, ◌≡◌, ◌≢◌, refl, subst, Bool, true, false, List, [], ◌∷◌, ◌++◌, Option,
  ltb, is_nil, u32_mod, F64, All, arith,
}
use asrsub.Text.{Text, trim}
use asrsub.Srt.{Cue}
use asrsub.Srt.Contiguous.{Follows, IsTimeline}
use asrsub.Srt.Validate.{
  Violation, when, check_cue, check_pair, Totals, count_pair, check_rest, first_totals, body_of,
  validate_body, validate_timeline,
}

append-nil_both {ℓ} : {A : Type ℓ} (xs ys : List A) → xs ++ ys ≡ [] → (xs ≡ []) × (ys ≡ [])
append-nil_both [] ys h = (refl, h)
append-nil_both (x ∷ xs) ys h = absurd cc

is_nil-true : (t : Text) → t ≡ [] → is_nil t ≡ true
is_nil-true [] h = refl
is_nil-true (c ∷ t) h = absurd cc

le_of_not_ltb : (a b : ℕ) → ltb a b ≡ false → b ≤ a
le_of_not_ltb a b h = ground arith

span-le :
    (s e max_ms : ℕ)
    → s ≤ e
    → e < u32_mod
    → ltb max_ms ((e + u32_mod - s) % u32_mod) ≡ false
    → e - s ≤ max_ms
span-le s e max_ms h fits k =
    le_of_not_ltb max_ms (e - s) (subst (λ n. ltb max_ms n ≡ false) unwrapped k)
  where
    unwrapped : (e + u32_mod - s) % u32_mod ≡ e - s
    unwrapped = omega arith

true_not_false : (b : Bool) → b ≡ true → b ≢ false
true_not_false true h e = cc
true_not_false false h e = cc

-- A cue that passes on its own: its text is not blank, and it ends no earlier than it starts and at
-- most the allowed time later.
abbrev pub IsSane : ℕ → Cue → Type 0
IsSane max_cue_ms c =
    (trim c.text ≢ []) × (c.start_ms ≤ c.end_ms) × (c.end_ms - c.start_ms ≤ max_cue_ms)

module _ (F : F64) (max_cue_ms : ℕ) where
  open F use {Num}

  when-nil : (b : Bool) (x : Violation F) → when F b x ≡ [] → b ≡ false
  when-nil true x h = absurd cc
  when-nil false x h = refl

  check_cue-IsSane :
      (i : ℕ) (c : Cue) → c.end_ms < u32_mod → check_cue F max_cue_ms i c ≡ [] → IsSane max_cue_ms c
  unfolding check_cue
  check_cue-IsSane i c fits h =
      let both = append-nil_both _ _ h in
      let later = append-nil_both _ _ both.1 in
      let ordered = le_of_not_ltb c.end_ms c.start_ms (when-nil _ _ later.0) in
      (
        (λ e.
            true_not_false (is_nil (trim c.text)) (is_nil-true (trim c.text) e)
              (when-nil _ _ both.0)),
        ordered,
        span-le c.start_ms c.end_ms max_cue_ms ordered fits (when-nil _ _ later.1),
      )

  check_rest-Follows :
      (i : ℕ) (prev : Cue) (rest : List Cue) (t : Totals F)
      → All (λ c. c.end_ms < u32_mod) rest
      → (check_rest F max_cue_ms i prev rest t).0 ≡ []
      → Follows prev rest × All (IsSane max_cue_ms) rest
  unfolding check_rest check_pair
  check_rest-Follows i prev [] t fits h = (tt, tt)
  check_rest-Follows i prev (c ∷ rest) t fits h =
      let here = append-nil_both _ _ h in
      let later = append-nil_both _ _ here.1 in
      let pair = append-nil_both _ _ later.0 in
      let sane = check_cue-IsSane i c fits.0 here.0 in
      let below = check_rest-Follows (i + 1) c rest (count_pair F prev c t) fits.1 later.1 in
      (
        (le_of_not_ltb c.start_ms prev.end_ms (when-nil _ _ pair.1), sane.1, below.0),
        (sane, below.1),
      )

  validate_body-IsTimeline :
      (cues : List Cue) (duration_s : Option Num)
      → All (λ c. c.end_ms < u32_mod) cues
      → validate_body F cues max_cue_ms duration_s ≡ []
      → (cues ≢ []) × IsTimeline cues × All (IsSane max_cue_ms) cues
  unfolding validate_body
  validate_body-IsTimeline [] d fits h = absurd cc
  validate_body-IsTimeline (c ∷ rest) d fits h =
      let here = append-nil_both _ _ h in
      let later = append-nil_both _ _ here.1 in
      let sane = check_cue-IsSane 0 c fits.0 here.0 in
      let below = check_rest-Follows 1 c rest (first_totals F) fits.1 later.0 in
      ((λ e. cc), (sane.1, below.0), (sane, below.1))

  -- Where the gate finds no violation in cues with 32-bit times, there is dialogue after the marker,
  -- no dialogue cue overlaps the one before, and each has a text that is not blank, ends no earlier
  -- than it starts, and lasts at most the allowed time, whatever the duration of the video.
  pub validate_timeline-IsTimeline :
      (cues : List Cue) (duration_s : Option Num)
      → All (λ c. c.end_ms < u32_mod) (body_of cues)
      → validate_timeline F cues max_cue_ms duration_s ≡ []
      → (body_of cues ≢ []) × IsTimeline (body_of cues) × All (IsSane max_cue_ms) (body_of cues)
  unfolding validate_timeline
  validate_timeline-IsTimeline cues d fits h = validate_body-IsTimeline (body_of cues) d fits h
