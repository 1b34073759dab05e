-- ===== src/Srt/Guard/Collapse.antt =====
-- What the guards leave alone.
use asrsub.Prelude.{
  ℕ, zero, suc, ◌+◌, ◌-◌, ◌≤◌, ◌<◌, ◌≡◌, ◌≢◌, refl, sym, ap, ap₂, ◌∙◌, subst, Bool, true, false,
  not, ◌&&◌, any, List, [], ◌∷◌, ◌++◌, ◌==◌, ==_iff, replicate, All, arith, append_assoc,
  append-nil, le→ltb, Bool-cases, inl, inr, F64, ◌⊎◌, or_false,
}
use asrsub.Text.{Text}
use asrsub.Srt.Guard.{
  emit_run, collapse_from, sanitize_line, sanitize_lines, has_kana, is_kana, is_foreign, guard_from,
  guard_foreign_lines,
}

-- No char stands `max_repeat + 1` times in a row.
abbrev pub NoLongRun : ℕ → Text → Type 0
NoLongRun max_repeat s =
    (before after : Text) (c : ℕ) → s ≢ before ++ (replicate (suc max_repeat) c ++ after)

replicate-snoc : (n c : ℕ) (s : Text) → replicate (suc n) c ++ s ≡ replicate n c ++ c ∷ s
replicate-snoc zero c s = refl
replicate-snoc (suc n) c s = ap (◌∷◌ c) (replicate-snoc n c s)

replicate-split : (n m c : ℕ) → m ≤ n → replicate n c ≡ replicate m c ++ replicate (n - m) c
replicate-split n zero c h = ap (λ k. replicate k c) sub_zero
  where
    sub_zero : n ≡ n - zero
    sub_zero = omega arith
replicate-split zero (suc m) c h = absurd (omega arith)
replicate-split (suc n) (suc m) c h =
    ap (◌∷◌ c)
      (replicate-split n m c (omega arith) ∙ ap (λ k. replicate m c ++ replicate k c) sub_suc)
  where
    sub_suc : n - m ≡ suc n - suc m
    sub_suc = omega arith

run-le :
    (max_repeat run c : ℕ) (s : Text)
    → NoLongRun max_repeat (replicate run c ++ s)
    → run ≤ max_repeat
run-le max_repeat run c s h = elim (le_or_lt run max_repeat) [
  | inl le ↦ le
  | inr lt ↦ absurd (
      h [] (replicate (run - suc max_repeat) c ++ s) c (
        ap (λ t. t ++ s) (replicate-split run (suc max_repeat) c lt)
        ∙ append_assoc (replicate (suc max_repeat) c) (replicate (run - suc max_repeat) c) s))
]
  where
    le_or_lt : (a b : ℕ) → (a ≤ b) ⊎ (b < a)
    le_or_lt a b = omega arith

NoLongRun-tail :
    (max_repeat : ℕ) (s t : Text) → NoLongRun max_repeat (s ++ t) → NoLongRun max_repeat t
NoLongRun-tail max_repeat s t h before after c e =
    h (s ++ before) after c
      (ap (◌++◌ s) e ∙ sym (append_assoc s before (replicate (suc max_repeat) c ++ after)))

emit_run-short :
    (max_repeat c run : ℕ) → run ≤ max_repeat → emit_run max_repeat c run ≡ replicate run c
unfolding emit_run
emit_run-short max_repeat c run h = rw (le→ltb max_repeat run h) refl

regroup :
    (max_repeat c run d : ℕ) (s : Text)
    → d ≡ c
    → replicate (run + 1) c ++ s ≡ replicate run c ++ d ∷ s
regroup max_repeat c run d s e =
    ap (λ n. replicate n c ++ s) next
    ∙ replicate-snoc run c s
    ∙ ap (λ x. replicate run c ++ x ∷ s) (sym e)
  where
    next : run + 1 ≡ suc run
    next = omega arith

collapse_from-NoLongRun :
    (max_repeat c run : ℕ) (s : Text)
    → NoLongRun max_repeat (replicate run c ++ s)
    → collapse_from max_repeat c run s ≡ replicate run c ++ s
unfolding collapse_from
collapse_from-NoLongRun max_repeat c run [] h =
    emit_run-short max_repeat c run (run-le max_repeat run c [] h)
    ∙ sym (append-nil (replicate run c))
collapse_from-NoLongRun max_repeat c run (d ∷ s) h = elim (Bool-cases (d == c)) [
  | inl e ↦
      let grown = regroup max_repeat c run d s ((==_iff d c).0 e) in
      rw (e, collapse_from)
        (collapse_from-NoLongRun max_repeat c (run + 1) s
            (subst (NoLongRun max_repeat) (sym grown) h)
          ∙ grown)
  | inr e ↦
      rw (e, collapse_from)
        (ap (λ t. t ++ collapse_from max_repeat d 1 s)
            (emit_run-short max_repeat c run (run-le max_repeat run c (d ∷ s) h))
          ∙ ap (◌++◌ (replicate run c)) (
              collapse_from-NoLongRun max_repeat d 1 s
                (NoLongRun-tail max_repeat (replicate run c) (d ∷ s) h)))
]

-- Lines in which no char stands more than `max_repeat` times in a row are left as they are.
pub sanitize_lines-NoLongRun :
    (lines : List Text) (max_repeat : ℕ)
    → All (NoLongRun max_repeat) lines
    → sanitize_lines lines max_repeat ≡ lines
unfolding sanitize_lines sanitize_line
sanitize_lines-NoLongRun [] max_repeat h = refl
sanitize_lines-NoLongRun ([] ∷ lines) max_repeat h =
    ap (◌∷◌ []) (sanitize_lines-NoLongRun lines max_repeat h.1)
sanitize_lines-NoLongRun ((c ∷ s) ∷ lines) max_repeat h =
    ap₂ ◌∷◌ (collapse_from-NoLongRun max_repeat c 1 s h.0)
      (sanitize_lines-NoLongRun lines max_repeat h.1)

and_false : (a b : Bool) → b ≡ true → (a && not b) ≡ false
and_false true true h = refl
and_false false true h = refl
and_false true false h = absurd cc
and_false false false h = refl

-- The line has a char from U+3040 to U+30FF.
abbrev pub IsKana : Text → Type 0
IsKana l =
    (before : Text) × (c : ℕ) × (after : Text) × (l ≡ before ++ c ∷ after)
    × (12_352 ≤ c)
    × (c ≤ 12_543)

any-mid :
    (p : ℕ → Bool) (before : Text) (c : ℕ) (after : Text)
    → p c ≡ true
    → any p (before ++ c ∷ after) ≡ true
any-mid p [] c after h = rw (h) refl
any-mid p (b ∷ before) c after h = elim (Bool-cases (p b)) [
  | inl e ↦ rw (e) refl
  | inr e ↦ rw (e) (any-mid p before c after h)
]

is_kana-range : (c : ℕ) → 12_352 ≤ c → c ≤ 12_543 → is_kana c ≡ true
is_kana-range c lo hi = ground arith

IsKana-has_kana : (l : Text) → IsKana l → has_kana l ≡ true
unfolding has_kana
IsKana-has_kana l (before, c, after, e, lo, hi) =
    subst (λ t. any is_kana t ≡ true) (sym e)
      (any-mid is_kana before c after (is_kana-range c lo hi))

module _ (F : F64) where
  is_foreign-has_kana : (l : Text) → has_kana l ≡ true → is_foreign F l ≡ false
  unfolding is_foreign
  is_foreign-has_kana l h = or_false _ _ (and_false _ (has_kana l) h) (and_false _ (has_kana l) h)

  -- Line by line: a line with a hiragana or katakana is the same in the output.
  abbrev pub KanaKept : List Text → List Text → Type 0
  KanaKept [] [] = Unit
  KanaKept (l ∷ lines) (m ∷ out) = (IsKana l → m ≡ l) × KanaKept lines out
  KanaKept _ _ = ⊥

  guard_from-KanaKept :
      (i : ℕ) (placeholders lines : List Text) → KanaKept lines (guard_from F i placeholders lines)
  unfolding guard_from
  guard_from-KanaKept i placeholders [] = tt
  guard_from-KanaKept i placeholders (l ∷ lines) = elim (Bool-cases (is_foreign F l)) [
    | inl e ↦ rw (e) (
      λ kana. absurd (let quiet = is_foreign-has_kana l (IsKana-has_kana l kana) in cc),
      guard_from-KanaKept (i + 1) placeholders lines,
    )
    | inr e ↦ rw (e) (λ kana. refl, guard_from-KanaKept (i + 1) placeholders lines)
  ]

  -- The output has as many lines as the input, and each line with a hiragana or katakana
  -- (U+3040 to U+30FF) stays as it is in its place, whatever the other lines and the placeholders
  -- are and however the ratio rounds.
  pub guard_foreign_lines-KanaKept :
      (lines placeholders : List Text) → KanaKept lines (guard_foreign_lines F lines placeholders)
  unfolding guard_foreign_lines
  guard_foreign_lines-KanaKept lines placeholders = guard_from-KanaKept 0 placeholders lines
