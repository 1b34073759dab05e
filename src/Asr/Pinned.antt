-- ===== src/Asr/Pinned.antt =====
-- A transcript that was made under a pinned language.
use asrsub.Prelude.{
  ℕ, ◌≡◌, refl, sym, ap, ◌∙◌, true, false, List, [], ◌∷◌, Option, some, is_nil, F64, All,
  Bool-cases, ◌⊎◌, inl, inr,
}
use asrsub.Text.{Text, codes, text_eq}
use asrsub.Text.Equality.{eq_of_text_eq}
use asrsub.Report.{Result, and_then}
use asrsub.Json.{Json, str_field}
use asrsub.Srt.{Cue}
use asrsub.Lang.{normalize_reported_lang}
use asrsub.Asr.{AsrError, wire_lang, check_pinned_lang, compare_pin}
use asrsub.Asr.Request.{rest_cues, transcribe_pieces}

module _ (J : Json) where
  -- What an answer reports, if anything, is read as the language that was sent, or as none.
  abbrev pub Agrees : Text → J.Value → Type 0
  Agrees sent v =
      (reported : Text)
      → str_field J (codes "language") v ≡ some reported
      → (normalize_reported_lang reported ≡ []) ⊎ (normalize_reported_lang reported ≡ sent)

  nil_of_is_nil : (t : Text) → is_nil t ≡ true → t ≡ []
  nil_of_is_nil [] h = refl
  nil_of_is_nil (c ∷ t) h = absurd cc

  compare_pin-ok :
      (sent reported : Text)
      → compare_pin J sent (some reported) ≡ Result.ok tt
      → (normalize_reported_lang reported ≡ []) ⊎ (normalize_reported_lang reported ≡ sent)
  compare_pin-ok sent reported h = elim (Bool-cases (is_nil (normalize_reported_lang reported))) [
    | inl blank ↦ inl (nil_of_is_nil _ blank)
    | inr filled ↦ elim (Bool-cases (text_eq (normalize_reported_lang reported) sent)) [
      | inl same ↦ inr (eq_of_text_eq _ sent same)
      | inr differs ↦ absurd (refused filled differs)
    ]
  ]
    where
      refused :
          is_nil (normalize_reported_lang reported) ≡ false
          → text_eq (normalize_reported_lang reported) sent ≡ false
          → ⊥
      refused f d =
          let e : compare_pin J sent (some reported)
              ≡ Result.err (AsrError.mismatch sent (normalize_reported_lang reported)) =
            rw (f, d) refl in
          cc

  check_pinned_lang-Agrees :
      (sent : Text) (v : J.Value) → check_pinned_lang J sent v ≡ Result.ok tt → Agrees sent v
  unfolding check_pinned_lang
  check_pinned_lang-Agrees sent v h reported e =
      compare_pin-ok sent reported (ap (compare_pin J sent) (sym e) ∙ h)

  -- A chain of two results that succeeds has a first that does.
  and_then-ok :
      {A B : Type 0} (r : Result AsrError A) (f : A → Result AsrError B) (b : B)
      → and_then r f ≡ Result.ok b
      → (a : A) × (r ≡ Result.ok a) × (f a ≡ Result.ok b)
  and_then-ok (Result.ok a) f b h = (a, refl, h)
  and_then-ok (Result.err e) f b h = absurd cc

  module _ (F : F64) (as_f64 : J.Value → Option F.Num) where
    rest_cues-Agrees :
        (sent : Text) (pieces : List (J.Value × ℕ)) (cues : List Cue)
        → rest_cues J F as_f64 (some sent) pieces ≡ Result.ok cues
        → All (λ piece. Agrees sent piece.0) pieces
    unfolding rest_cues
    rest_cues-Agrees sent [] cues h = tt
    rest_cues-Agrees sent ((v, offset_ms) ∷ more) cues h =
        let (first, first_ok, go_on) = and_then-ok _ _ _ h in
        let (later, later_ok, _) = and_then-ok _ _ _ go_on in
        let (u, guarded, _) = and_then-ok _ _ _ first_ok in
        (check_pinned_lang-Agrees sent v guarded, rest_cues-Agrees sent more later later_ok)

    abbrev labelled_as : List Cue → Text → Result AsrError (List Cue × Text)
    labelled_as cues lang = Result.ok (cues, lang)

    abbrev label_of : Text → Result AsrError (List Cue × Text) → Text
    label_of default (Result.ok (cues, lang)) = lang
    label_of default (Result.err e) = default

    -- If the endpoint accepts a pinned language, a transcript of pieces that succeeds is labelled with
    -- it, and every piece whose answer reports a language reported that one.
    pub transcribe_pieces-Agrees :
        (pinned sent : Text) (pieces : List (J.Value × ℕ)) (cues : List Cue) (lang : Text)
        → wire_lang (some pinned) ≡ some sent
        → transcribe_pieces J F as_f64 (some pinned) pieces ≡ Result.ok (cues, lang)
        → (lang ≡ pinned) × All (λ piece. Agrees sent piece.0) pieces
    unfolding transcribe_pieces
    transcribe_pieces-Agrees pinned sent pieces cues lang accepted h =
        let (later, later_ok, labelled) = and_then-ok _ _ _ h in
        (
          sym (label _ labelled),
          rest_cues-Agrees sent pieces later
              (ap (λ s. rest_cues J F as_f64 s pieces) (sym accepted) ∙ later_ok),
        )
      where
        label :
            (all_cues : List Cue)
            → labelled_as all_cues pinned ≡ Result.ok (cues, lang)
            → pinned ≡ lang
        label all_cues e = ap (λ r. label_of pinned r) e
