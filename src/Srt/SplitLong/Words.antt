-- ===== src/Srt/SplitLong/Words.antt =====
-- A text of several words is packed word by word.
use asrsub.Prelude.{
  ℕ, ◌+◌, ◌-◌, ◌≤◌, ◌<◌, ◌≡◌, ◌≢◌, refl, sym, ap, ◌∙◌, true, false, List, [], ◌∷◌, ◌++◌, length,
  F64, arith, append_assoc, append-nil, All, lt→leb, le→ltb, is_nil-ne_nil, Bool-cases, inl, inr,
  append-ne-nil_left,
}
use asrsub.Text.{Text, split_whitespace, join}
use asrsub.Srt.{Cue}
use asrsub.Srt.Contiguous.{texts}
use asrsub.Srt.SplitLong.{piece, is_full, cut_at, word_pieces, split_long_cue}

abbrev sp : Text
sp = b' ' ∷ []

join-cons : (t : Text) (ts : List Text) → ts ≢ [] → join sp (t ∷ ts) ≡ t ++ sp ++ join sp ts
unfolding join
join-cons t [] h = absurd (h refl)
join-cons t (u ∷ ts) h = refl

join-append :
    (xs ys : List Text) → xs ≢ [] → ys ≢ [] → join sp (xs ++ ys) ≡ join sp xs ++ sp ++ join sp ys
unfolding join
join-append [] ys hx hy = absurd (hx refl)
join-append (x ∷ []) ys hx hy = join-cons x ys hy
join-append (x ∷ y ∷ xs) ys hx hy =
    join-cons x ((y ∷ xs) ++ ys) (λ e. cc)
    ∙ ap (λ t. x ++ sp ++ t) (join-append (y ∷ xs) ys (λ e. cc) hy)
    ∙ regroup
    ∙ ap (λ t. t ++ sp ++ join sp ys) (sym (join-cons x (y ∷ xs) (λ e. cc)))
  where
    regroup :
        x ++ sp ++ (join sp (y ∷ xs) ++ sp ++ join sp ys)
        ≡ (x ++ sp ++ join sp (y ∷ xs)) ++ sp ++ join sp ys
    regroup = simp append_assoc

module _ (F : F64) where
  open F use {Num, of_ℕ, mul, div, le, to_u32}

  texts-ne-nil : (cues : List Cue) → cues ≢ [] → texts cues ≢ []
  texts-ne-nil [] h e = h refl
  texts-ne-nil (c ∷ cues) h e = cc

  snoc-ne-nil : (cur : List Text) (w : Text) → cur ++ w ∷ [] ≢ []
  snoc-ne-nil [] w e = cc
  snoc-ne-nil (x ∷ cur) w e = cc

  module _ (end_ms : ℕ) (per_word : Num) (max_ms : ℕ) where
    pieces : List Text → ℕ → List Text → List Cue
    pieces = word_pieces F end_ms per_word max_ms

    pieces-flush :
        (cur : List Text) (s : ℕ) (w : Text) (rest : List Text)
        → is_full F per_word max_ms (cur ++ w ∷ []) rest ≡ true
        → pieces cur s (w ∷ rest)
          ≡ piece F s (cut_at F end_ms per_word (cur ++ w ∷ []) s rest) (cur ++ w ∷ [])
            ∷ pieces [] (cut_at F end_ms per_word (cur ++ w ∷ []) s rest) rest
    unfolding pieces word_pieces
    pieces-flush cur s w rest h = rw (h, word_pieces)

    pieces-keep :
        (cur : List Text) (s : ℕ) (w : Text) (rest : List Text)
        → is_full F per_word max_ms (cur ++ w ∷ []) rest ≡ false
        → pieces cur s (w ∷ rest) ≡ pieces (cur ++ w ∷ []) s rest
    unfolding pieces word_pieces
    pieces-keep cur s w rest h = rw (h, word_pieces)

    pieces-ne-nil :
        (cur : List Text) (s : ℕ) (words : List Text) → cur ++ words ≢ [] → pieces cur s words ≢ []
    pieces-ne-nil [] s [] h = absurd (h refl)
    pieces-ne-nil (x ∷ cur) s [] h = λ e. unfold pieces word_pieces in cc e
    pieces-ne-nil cur s (w ∷ rest) h =
        elim (Bool-cases (is_full F per_word max_ms (cur ++ w ∷ []) rest)) [
          | inl e ↦ rw (pieces-flush cur s w rest e) (λ q. cc)
          | inr e ↦ rw (pieces-keep cur s w rest e) (
              pieces-ne-nil (cur ++ w ∷ []) s rest
                (append-ne-nil_left (cur ++ w ∷ []) rest (snoc-ne-nil cur w)))
        ]

    flush-join :
        (cur rest : List Text) (s e : ℕ)
        → cur ≢ []
        → (rest ≢ [] → join sp (texts (pieces [] e rest)) ≡ join sp rest)
        → join sp (join sp cur ∷ texts (pieces [] e rest)) ≡ join sp (cur ++ rest)
    flush-join cur [] s e ne ih = rw append-nil (unfold pieces word_pieces join in refl)
    flush-join cur (w ∷ rest) s e ne ih =
        join-cons (join sp cur) (texts (pieces [] e (w ∷ rest)))
          (texts-ne-nil (pieces [] e (w ∷ rest)) (pieces-ne-nil [] e (w ∷ rest) (λ q. cc)))
        ∙ ap (λ t. join sp cur ++ sp ++ t) (ih (λ q. cc))
        ∙ sym (join-append cur (w ∷ rest) ne (λ q. cc))

    pieces-join :
        (cur : List Text) (s : ℕ) (words : List Text)
        → cur ++ words ≢ []
        → join sp (texts (pieces cur s words)) ≡ join sp (cur ++ words)
    pieces-join [] s [] h = absurd (h refl)
    pieces-join (x ∷ cur) s [] h = rw append-nil (unfold pieces word_pieces join in refl)
    pieces-join cur s (w ∷ rest) h =
        elim (Bool-cases (is_full F per_word max_ms (cur ++ w ∷ []) rest)) [
          | inl e ↦ rw (pieces-flush cur s w rest e) (
              flush-join (cur ++ w ∷ []) rest s (cut_at F end_ms per_word (cur ++ w ∷ []) s rest)
                (snoc-ne-nil cur w)
                (pieces-join [] (cut_at F end_ms per_word (cur ++ w ∷ []) s rest) rest)
              ∙ ap (join sp) (append_assoc cur (w ∷ []) rest))
          | inr e ↦ rw (pieces-keep cur s w rest e) (
              pieces-join (cur ++ w ∷ []) s rest
                (append-ne-nil_left (cur ++ w ∷ []) rest (snoc-ne-nil cur w))
              ∙ ap (join sp) (append_assoc cur (w ∷ []) rest))
        ]

    -- No piece ends before it starts.
    pieces-ordered :
        (cur : List Text) (s : ℕ) (words : List Text)
        → All (λ c. c.start_ms ≤ c.end_ms) (pieces cur s words)
    pieces-ordered [] s [] = unfold pieces word_pieces in tt
    pieces-ordered (x ∷ cur) s [] = unfold pieces word_pieces in (omega arith, tt)
    pieces-ordered cur s (w ∷ rest) =
        elim (Bool-cases (is_full F per_word max_ms (cur ++ w ∷ []) rest)) [
          | inl e ↦ rw (pieces-flush cur s w rest e) (
            omega arith,
            pieces-ordered [] (cut_at F end_ms per_word (cur ++ w ∷ []) s rest) rest,
          )
          | inr e ↦ rw (pieces-keep cur s w rest e) (pieces-ordered (cur ++ w ∷ []) s rest)
        ]

  abbrev per_word_of : Cue → Num
  per_word_of c = div (of_ℕ (c.end_ms - c.start_ms)) (of_ℕ (length (split_whitespace c.text)))

  many_words : (ws : List Text) → 2 ≤ length ws → ws ≢ []
  many_words [] h e = absurd (omega arith)
  many_words (w ∷ ws) h e = cc

  split_long_cue-word_pieces :
      (c : Cue) (max_ms : ℕ)
      → c.start_ms + max_ms < c.end_ms
      → c.text ≢ []
      → 2 ≤ length (split_whitespace c.text)
      → split_long_cue F c max_ms
        ≡ pieces c.end_ms (per_word_of c) max_ms [] c.start_ms (split_whitespace c.text)
  split_long_cue-word_pieces c max_ms long ne many =
      unfold split_long_cue pieces in
      rw
        (
          lt→leb (c.end_ms - c.start_ms) max_ms (omega arith),
          is_nil-ne_nil c.text ne,
          le→ltb (length (split_whitespace c.text)) 2 many,
        )
        refl

  -- A cue of several words that is too long is cut between words: the pieces' texts, joined by
  -- spaces, are the cue's words joined by spaces, and no piece ends before it starts, however the
  -- floating-point estimates round.
  pub split_long_cue-words :
      (c : Cue) (max_ms : ℕ)
      → c.start_ms + max_ms < c.end_ms
      → c.text ≢ []
      → 2 ≤ length (split_whitespace c.text)
      → (join sp (texts (split_long_cue F c max_ms)) ≡ join sp (split_whitespace c.text))
        × All (λ p. p.start_ms ≤ p.end_ms) (split_long_cue F c max_ms)
  split_long_cue-words c max_ms long ne many =
      rw (split_long_cue-word_pieces c max_ms long ne many) (
        pieces-join c.end_ms (per_word_of c) max_ms [] c.start_ms (split_whitespace c.text)
            (λ e. many_words (split_whitespace c.text) many e),
        pieces-ordered c.end_ms (per_word_of c) max_ms [] c.start_ms (split_whitespace c.text),
      )
