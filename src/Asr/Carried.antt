-- ===== src/Asr/Carried.antt =====
-- What `choose_source` promises, in terms of the tags of the tracks.
use asrsub.Prelude.{
  ◌↔◌, ◌≡◌, ◌≢◌, refl, sym, ap, ◌∙◌, subst, Bool, true, false, not, List, [], ◌∷◌, Option, none,
  some, any, Bool-cases, inl, inr, arith, is_nil, is_nil-ne_nil, not-false,
}
use asrsub.Text.{Text}
use asrsub.Text.Equality.{eq_of_text_eq, text_eq_refl}
use asrsub.Lang.{normalize_lang, identity_accepts}
use asrsub.Asr.{
  AudioStream, AudioChoice, is_commentary, named, is_text, is_wanted, target_of, choice_of,
  differs_from, choose_source, filter_option,
}
use asrsub.Asr.Choice.{IsIn, AllCommentary, choose_source-IsPicked}

-- The track's tag names the language, in its canonical code.
abbrev pub TagNames : AudioStream → Text → Type 0
TagNames s lang =
    (raw : Text) × (s.language ≡ some raw)
    × (normalize_lang raw ≡ lang)
    × (identity_accepts lang ≡ true)

-- A track of the file; a commentary only where all are; and one in the wanted language, where a track
-- that is no commentary is tagged with it.
abbrev pub IsBest : List AudioStream → Text → AudioStream → Type 0
IsBest streams want s =
    IsIn s streams
    × (is_commentary s ≡ true → (t : AudioStream) → IsIn t streams → is_commentary t ≡ true)
    × (want ≢ []
        → (t : AudioStream) → IsIn t streams
        → is_commentary t ≡ false
        → TagNames t want
        → TagNames s want)

-- The choice of a track: its index, the language of its tag if it names one, and a translation unless
-- that is the wanted one.
abbrev pub IsChoiceOf : Text → AudioStream → AudioChoice → Type 0
IsChoiceOf want s c =
    (c.stream_index ≡ s.index)
    × ((lang : Text) → (c.asr_lang ≡ some lang) ↔ TagNames s lang)
    × ((c.needs_translate ≡ false) ↔ ((want ≢ []) × TagNames s want))

filter_option-some :
    {A : Type 0} (p : A → Bool) (a b : A)
    → filter_option p (some a) ≡ some b
    → (a ≡ b) × (p b ≡ true)
filter_option-some p a b e = elim (Bool-cases (p a)) [
  | inl h ↦ let same = kept h in (same, subst (λ x. p x ≡ true) same h)
  | inr h ↦ absurd (dropped h)
]
  where
    kept : p a ≡ true → a ≡ b
    kept h = ground arith

    dropped : p a ≡ false → ⊥
    dropped h = ground arith

named-TagNames : (s : AudioStream) (lang : Text) → (named s ≡ some lang) ↔ TagNames s lang
unfolding named
named-TagNames s lang = (to, from)
  where
    of_tag :
        (tag : Option Text)
        → filter_option identity_accepts (asrsub.Asr.map_option normalize_lang tag) ≡ some lang
        → (raw : Text) × (tag ≡ some raw)
          × (normalize_lang raw ≡ lang)
          × (identity_accepts lang ≡ true)
    of_tag none e = absurd cc
    of_tag (some raw) e =
        let found = filter_option-some identity_accepts (normalize_lang raw) lang e in
        (raw, refl, found.0, found.1)

    to : named s ≡ some lang → TagNames s lang
    to e = of_tag s.language e

    from : TagNames s lang → named s ≡ some lang
    from (raw, tag, code, fine) =
        ap (λ t. filter_option identity_accepts (asrsub.Asr.map_option normalize_lang t)) tag
        ∙ ap (λ t. filter_option identity_accepts (some t)) code
        ∙ rw (fine) refl

is_text_iff : (want : Text) (o : Option Text) → (is_text want o ≡ true) ↔ (o ≡ some want)
is_text_iff want none = (λ e. absurd cc, λ e. absurd cc)
is_text_iff want (some t) = (
  λ e. ap some (eq_of_text_eq t want e),
  λ e. subst (λ o. is_text want o ≡ true) (sym e) (text_eq_refl want),
)

module _ (p : AudioStream → Bool) where
  any-IsIn :
      (streams : List AudioStream) (t : AudioStream)
      → IsIn t streams
      → p t ≡ true
      → any p streams ≡ true
  any-IsIn (s ∷ more) t (inl e) h = rw (ap p (sym e) ∙ h) refl
  any-IsIn (s ∷ more) t (inr m) h = elim (Bool-cases (p s)) [
    | inl e ↦ rw (e) refl
    | inr e ↦ rw (e) (any-IsIn more t m h)
  ]
  any-IsIn [] t m h = absurd m

not-AllCommentary :
    (streams : List AudioStream)
    → AllCommentary streams
    → (t : AudioStream) → IsIn t streams
    → is_commentary t ≡ true
not-AllCommentary streams h t there = elim (Bool-cases (is_commentary t)) [
  | inl e ↦ e
  | inr e ↦
      absurd (let found = any-IsIn (λ s. not (is_commentary s)) streams t there (rw (e) refl) in cc)
]

target_of-some :
    (raw lang : Text) → (target_of raw ≡ some lang) ↔ ((normalize_lang raw ≡ lang) × (lang ≢ []))
target_of-some raw lang = (to (normalize_lang raw), from (normalize_lang raw))
  where
    to :
        (want : Text)
        → filter_option (λ t. not (is_nil t)) (some want) ≡ some lang
        → (want ≡ lang) × (lang ≢ [])
    to [] e = absurd cc
    to (c ∷ want) e = let same = inner e in (same, λ blank. let b = same ∙ blank in cc)
      where
        inner : some (c ∷ want) ≡ some lang → c ∷ want ≡ lang
        inner e = cc

    from :
        (want : Text)
        → (want ≡ lang) × (lang ≢ [])
        → filter_option (λ t. not (is_nil t)) (some want) ≡ some lang
    from want (same, some_char) =
        subst (λ t. filter_option (λ t. not (is_nil t)) (some t) ≡ some lang) (sym same)
          (rw (is_nil-ne_nil lang some_char) refl)

differs_from_iff :
    (target o : Option Text)
    → (differs_from target o ≡ false) ↔ ((l : Text) × (target ≡ some l) × (o ≡ some l))
differs_from_iff target none = (λ e. absurd cc, λ (l, t, e). absurd cc)
differs_from_iff target (some l) = (
  λ e. (l, (is_text_iff l target).0 (not-false (is_text l target) e), refl),
  λ (k, t, e). rw ((is_text_iff l target).1 (t ∙ sym e)) refl,
)

module _ (streams : List AudioStream) (target_lang : Text) where
  abbrev want : Text
  want = normalize_lang target_lang

  -- Where there is an audio track, `choose_source` picks one of them, and a commentary only if all are. If
  -- a track that is no commentary is tagged with the target language, the picked one is too. The choice
  -- carries the picked track's index and the language that its tag names, none if the tag names none, and
  -- asks for a translation unless that is the target language.
  pub choose_source-IsChoiceOf :
      (original_lang : Option Text)
      → streams ≢ []
      → (s : AudioStream) × (c : AudioChoice) × (choose_source streams target_lang original_lang
          ≡ some c)
        × IsBest streams (normalize_lang target_lang) s
        × IsChoiceOf (normalize_lang target_lang) s c
  choose_source-IsChoiceOf original_lang some_there =
      let (s, picked, good) = choose_source-IsPicked streams target_lang original_lang some_there in
      let (there, quiet, tagged) = good in
      (
        s,
        choice_of (target_of target_lang) s,
        picked,
        (there, λ c. not-AllCommentary streams (quiet c), best s tagged),
        (refl, named-TagNames s, (wanted s, unwanted s)),
      )
    where
      best :
          (s : AudioStream)
          → ((w : Text)
              → target_of target_lang ≡ some w
              → any (is_wanted w) streams ≡ true
              → is_text w (named s) ≡ true)
          → want ≢ []
          → (t : AudioStream) → IsIn t streams
          → is_commentary t ≡ false
          → TagNames t want
          → TagNames s want
      best s tagged nonblank t there quiet names = (named-TagNames s want).0 (
          (is_text_iff want (named s)).0 (
            tagged want ((target_of-some target_lang want).1 (refl, nonblank)) (
              any-IsIn (is_wanted want) streams t there (
                rw (quiet, (is_text_iff want (named t)).1 ((named-TagNames t want).1 names))
                  refl))))

      wanted :
          (s : AudioStream)
          → differs_from (target_of target_lang) (named s) ≡ false
          → (want ≢ []) × TagNames s want
      wanted s e =
          let (l, t, n) = (differs_from_iff (target_of target_lang) (named s)).0 e in
          let (same, nonblank) = (target_of-some target_lang l).0 t in
          (
            subst (λ w. w ≢ []) (sym same) nonblank,
            subst (TagNames s) (sym same) ((named-TagNames s l).0 n),
          )

      unwanted :
          (s : AudioStream)
          → (want ≢ []) × TagNames s want
          → differs_from (target_of target_lang) (named s) ≡ false
      unwanted s (nonblank, names) = (differs_from_iff (target_of target_lang) (named s)).1 (
        want,
        (target_of-some target_lang want).1 (refl, nonblank),
        (named-TagNames s want).1 names,
      )
