-- ===== src/Asr/Choice.antt =====
-- What `choose_source` promises of the track it picks.
use asrsub.Prelude.{
  ◌⊎◌, ◌≡◌, ◌≢◌, refl, sym, ap, ◌∙◌, subst, Bool, true, false, not, ◌&&◌, List, [], ◌∷◌, Option,
  none, some, any, Bool-cases, inl, inr, arith, and_right,
}
use asrsub.Text.{Text}
use asrsub.Lang.{or_else}
use asrsub.Asr.{
  AudioStream, is_commentary, named, is_text, find, is_wanted, is_unnamed_or_en, find_named,
  target_of, other_original, pick, choice_of, choose_source, map_option,
}

abbrev pub IsIn : AudioStream → List AudioStream → Type 0
IsIn s [] = ⊥
IsIn s (t ∷ more) = (s ≡ t) ⊎ IsIn s more

module _ (p : AudioStream → Bool) where
  find-some :
      (streams : List AudioStream) (s : AudioStream)
      → find p streams ≡ some s
      → (p s ≡ true) × IsIn s streams
  find-some [] s e = absurd cc
  find-some (t ∷ more) s e = elim (Bool-cases (p t)) [
    | inl h ↦ let same = found h in (ap p (sym same) ∙ h, inl (sym same))
    | inr h ↦ let rest = find-some more s (later h) in (rest.0, inr rest.1)
  ]
    where
      found : p t ≡ true → t ≡ s
      found h = ground arith

      later : p t ≡ false → find p more ≡ some s
      later h = ground arith

  find-none : (streams : List AudioStream) → find p streams ≡ none → any p streams ≡ false
  find-none [] e = refl
  find-none (t ∷ more) e = elim (Bool-cases (p t)) [
    | inl h ↦ absurd (found h)
    | inr h ↦ rw (h) (find-none more (later h))
  ]
    where
      found : p t ≡ true → ⊥
      found h = ground arith

      later : p t ≡ false → find p more ≡ none
      later h = ground arith

abbrev pub AllCommentary : List AudioStream → Type 0
AllCommentary streams = any (λ s. not (is_commentary s)) streams ≡ false

-- One of the streams; a commentary only where all are; and in the target language, where a stream that is
-- no commentary is tagged with it.
abbrev pub IsPicked : List AudioStream → Option Text → AudioStream → Type 0
IsPicked streams target s =
    IsIn s streams
    × (is_commentary s ≡ true → AllCommentary streams)
    × ((want : Text)
        → target ≡ some want
        → any (is_wanted want) streams ≡ true
        → is_text want (named s) ≡ true)

first_of :
    (P : AudioStream → Type 0) (a b : Option AudioStream)
    → ((s : AudioStream) → a ≡ some s → P s)
    → (a ≡ none → (s : AudioStream) × (b ≡ some s) × P s)
    → (s : AudioStream) × (or_else a b ≡ some s) × P s
first_of P none b f g = g refl
first_of P (some s) b f g = (s, refl, f s refl)

not_commentary : (a b : Bool) → (not a && b) ≡ true → a ≡ false
not_commentary false b h = refl
not_commentary true b h = absurd cc

module _ (streams : List AudioStream) (target : Option Text) where
  target_found :
      (wanted : Option Text) (s : AudioStream)
      → find_named streams wanted ≡ some s
      → (want : Text) × (wanted ≡ some want) × (is_wanted want s ≡ true) × IsIn s streams
  target_found none s e = absurd cc
  target_found (some want) s e =
      let found = find-some (is_wanted want) streams s e in (want, refl, found.0, found.1)

  by_target : (s : AudioStream) → find_named streams target ≡ some s → IsPicked streams target s
  by_target s e =
      let (want, t, wanted, there) = target_found target s e in
      (
        there,
        (λ c.
            absurd
              (let q = not_commentary (is_commentary s) (is_text want (named s)) wanted in cc)),
        λ other t_too h.
            subst (λ w. is_text w (named s) ≡ true) (same want other t t_too)
              (and_right (not (is_commentary s)) _ wanted),
      )
    where
      same : (want other : Text) → target ≡ some want → target ≡ some other → want ≡ other
      same want other t t_too = cc

  module _ (unmatched : find_named streams target ≡ none) where
    off_target :
        (s : AudioStream)
        → IsIn s streams
        → (is_commentary s ≡ true → AllCommentary streams)
        → IsPicked streams target s
    off_target s there commentary = (there, commentary, λ want t h. absurd (clash want t h))
      where
        clash : (want : Text) → target ≡ some want → any (is_wanted want) streams ≡ true → ⊥
        clash want t h =
            let none_there =
              find-none (is_wanted want) streams (ap (find_named streams) (sym t) ∙ unmatched) in
            cc

    by_test :
        (p : AudioStream → Bool)
        → ((s : AudioStream) → p s ≡ true → is_commentary s ≡ false)
        → (s : AudioStream) → find p streams ≡ some s
        → IsPicked streams target s
    by_test p quiet s e =
        let found = find-some p streams s e in
        off_target s found.1 (λ c. absurd (let q = quiet s found.0 in cc))

    by_name :
        (want : Option Text) (s : AudioStream)
        → find_named streams want ≡ some s
        → IsPicked streams target s
    by_name none s e = absurd cc
    by_name (some want) s e = by_test (is_wanted want) (λ t. not_commentary _ _) s e

    last_resort :
        streams ≢ []
        → (s : AudioStream) × (or_else
              (find (λ t. not (is_commentary t)) streams)
              (find (λ t. true) streams)
            ≡ some s)
          × IsPicked streams target s
    last_resort some_there =
        first_of (IsPicked streams target) (find (λ t. not (is_commentary t)) streams)
          (find (λ t. true) streams)
          (by_test (λ t. not (is_commentary t)) (λ t h. quiet (is_commentary t) h))
          (λ all_of_it.
            anything streams refl some_there
              (find-none (λ t. not (is_commentary t)) streams all_of_it))
      where
        quiet : (b : Bool) → not b ≡ true → b ≡ false
        quiet false h = refl
        quiet true h = absurd cc

        anything :
            (l : List AudioStream)
            → streams ≡ l
            → l ≢ []
            → AllCommentary streams
            → (s : AudioStream) × (find (λ t. true) l ≡ some s) × IsPicked streams target s
        anything [] same h all_of_it = absurd (h refl)
        anything (s ∷ more) same h all_of_it =
            (s, refl, off_target s (subst (IsIn s) (sym same) (inl refl)) (λ c. all_of_it))

pick-IsPicked :
    (streams : List AudioStream) (target original : Option Text)
    → streams ≢ []
    → (s : AudioStream) × (pick streams target original ≡ some s) × IsPicked streams target s
unfolding pick
pick-IsPicked streams target original some_there =
    first_of P (find_named streams target) _ (by_target streams target) (λ unmatched.
      first_of P (find_named streams (other_original original target)) _
        (by_name streams target unmatched (other_original original target))
        (λ _.
          first_of P (find (is_wanted (asrsub.Text.codes "ja")) streams) _
            (by_name streams target unmatched (some (asrsub.Text.codes "ja")))
            (λ _.
              first_of P (find is_unnamed_or_en streams) _
                (by_test streams target unmatched is_unnamed_or_en
                  (λ t h. not_commentary (is_commentary t) _ h))
                (λ _. last_resort streams target unmatched some_there))))
  where
    P : AudioStream → Type 0
    P = IsPicked streams target

-- The choice that `choose_source` makes is that of a track that `IsPicked` holds of.
pub choose_source-IsPicked :
    (streams : List AudioStream) (target_lang : Text) (original_lang : Option Text)
    → streams ≢ []
    → (s : AudioStream) × (choose_source streams target_lang original_lang
        ≡ some (choice_of (target_of target_lang) s))
      × IsPicked streams (target_of target_lang) s
unfolding choose_source
choose_source-IsPicked streams target_lang original_lang some_there =
    let (s, picked, good) =
      pick-IsPicked streams (target_of target_lang) original_lang some_there in
    (s, ap (map_option (choice_of (target_of target_lang))) picked, good)
