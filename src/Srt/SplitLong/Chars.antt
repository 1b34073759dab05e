-- ===== src/Srt/SplitLong/Chars.antt =====
-- A text without spaces is cut into chunks that tile the cue's time.
use native.Mathlib.Nat.{
  le-div_iff_mul-le, div-mul-le_self, mul-le-mul_left, mul-le-mul, mod-eq_of_lt, div-lt_iff_lt-mul,
}
use asrsub.Prelude.{
  le→leb, lt→leb, lt→ltb, subst, dec_lt, is_nil-ne_nil, length-pos, nil_of_length, ℕ, zero, suc,
  ◌+◌, ◌-◌, ◌*◌, ◌/◌, ◌%◌, ◌^◌, ◌≤◌, ◌<◌, ◌≡◌, ◌≢◌, refl, sym, ap, ◌∙◌, min, max, List, [], ◌∷◌,
  ◌++◌, length, take, drop, u32_mod, F64, arith, take-append-drop, length-drop,
}
use asrsub.Text.{Text, split_whitespace}
use asrsub.Srt.{Cue}
use asrsub.Srt.SplitLong.{
  div_ceil, offset, char_piece, char_pieces, chunk_size, split_by_chars, split_long_cue,
}

div_mono : (a b d : ℕ) → a ≤ b → a / d ≤ b / d
div_mono a b zero h = omega arith
div_mono a b (suc d) h =
    (le-div_iff_mul-le (omega arith)).1 (omega (arith, div-mul-le_self a (suc d)))

scaled-le : (span k total : ℕ) → k ≤ total → 0 < total → span * k / total ≤ span
scaled-le span k total h p = grind (arith, div-mul-le_self (span * k) total, mul-le-mul_left span h)

scaled-fits : (span k : ℕ) → span < 2 ^ 32 → k < 2 ^ 32 → span * k < 2 ^ 64
scaled-fits span k p q = let (a, b) = bounds in omega (arith, mul-le-mul a b)
  where
    bounds : (span ≤ 4_294_967_295) × (k ≤ 4_294_967_295)
    bounds = omega arith

-- Where nothing overflows, the offset is the exact quotient.
offset-exact :
    (start span total k : ℕ)
    → k ≤ total
    → 0 < total
    → total < 2 ^ 32
    → start + span < u32_mod
    → offset start span total k ≡ start + span * k / total
unfolding offset
offset-exact start span total k h p t f =
    ap (λ x. (start + (x / total) % u32_mod) % u32_mod)
      (mod-eq_of_lt (scaled-fits span k (omega arith) (omega arith)))
    ∙ omega (arith, scaled-le span k total h p)

-- The pieces cover the time from `from` to `to` in order, each starting where the last one ended.
abbrev pub Tiles : ℕ → ℕ → List Cue → Type 0
Tiles from to [] = ⊥
Tiles from to (c ∷ []) = (c.start_ms ≡ from) × (c.end_ms ≡ to) × (from ≤ to)
Tiles from to (c ∷ d ∷ rest) =
    (c.start_ms ≡ from) × (from ≤ c.end_ms) × Tiles c.end_ms to (d ∷ rest)

abbrev pub all_text : List Cue → Text
all_text [] = []
all_text (c ∷ rest) = c.text ++ all_text rest

Tiles-cons :
    (from mid to : ℕ) (c : Cue) (rest : List Cue)
    → c.start_ms ≡ from
    → c.end_ms ≡ mid
    → from ≤ mid
    → Tiles mid to rest
    → Tiles from to (c ∷ rest)
Tiles-cons from mid to c [] s e le t = absurd t
Tiles-cons from mid to c (d ∷ rest) s e le t =
    (s, omega arith, subst (λ m. Tiles m to (d ∷ rest)) (sym e) t)

module _ (c : Cue) (span total per : ℕ) (pos : 0 < per) (room : total < 2 ^ 32)
    (ends : c.start_ms + span ≡ c.end_ms) (end_fits : c.end_ms < u32_mod) where
  boundary : ℕ → ℕ
  boundary k = c.start_ms + span * (k * per) / total

  next_index : (k : ℕ) → (k + 1) * per ≡ k * per + per
  next_index k = grind arith

  piece-start :
      (k : ℕ) (chunk : Text)
      → k * per < total
      → (char_piece c span total per k chunk).start_ms ≡ boundary k
  unfolding char_piece boundary
  piece-start k chunk h =
      ap (offset c.start_ms span total) (omega arith)
      ∙ offset-exact c.start_ms span total (k * per) (omega arith) (omega arith) room (omega arith)

  boundary-le : (k : ℕ) → k * per < total → boundary k ≤ c.end_ms
  unfolding boundary
  boundary-le k h = omega (arith, scaled-le span (k * per) total (omega arith) (omega arith))

  piece-end-last :
      (k : ℕ) (chunk : Text)
      → k * per < total
      → total ≤ (k + 1) * per
      → (char_piece c span total per k chunk).end_ms ≡ c.end_ms
  piece-end-last k chunk h le =
      unfold char_piece in
      rw (le→leb total (min ((k + 1) * per) total) (omega arith))
        (omega (arith, piece-start k chunk h, boundary-le k h))

  boundary_mono : (k : ℕ) → boundary k ≤ boundary (k + 1)
  unfolding boundary
  boundary_mono k = omega (
    arith,
    div_mono (span * (k * per)) (span * ((k + 1) * per)) total
        (mul-le-mul_left span (omega (arith, next_index k))),
  )

  piece-end-mid :
      (k : ℕ) (chunk : Text)
      → (k + 1) * per < total
      → (char_piece c span total per k chunk).end_ms ≡ boundary (k + 1)
  piece-end-mid k chunk lt =
      unfold char_piece in
      rw (lt→leb total (min ((k + 1) * per) total) (omega arith), next)
        (omega (arith, piece-start k chunk (omega (arith, next_index k)), boundary_mono k))
    where
      next : offset c.start_ms span total (min ((k + 1) * per) total) ≡ boundary (k + 1)
      next =
          unfold boundary in
          ap (offset c.start_ms span total) (omega arith)
          ∙ offset-exact c.start_ms span total ((k + 1) * per) (omega arith) (omega arith) room
              (omega arith)

  char_pieces-cons :
      (fuel k : ℕ) (rest : Text)
      → rest ≢ []
      → char_pieces (suc fuel) c span total per k rest
        ≡ char_piece c span total per k (take per rest)
          ∷ char_pieces fuel c span total per (k + 1) (drop per rest)
  unfolding char_pieces
  char_pieces-cons fuel k [] ne = absurd (ne refl)
  char_pieces-cons fuel k (x ∷ rest) ne = refl

  char_pieces-nil : (fuel k : ℕ) → char_pieces fuel c span total per k [] ≡ []
  unfolding char_pieces
  char_pieces-nil zero k = refl
  char_pieces-nil (suc fuel) k = refl

  char_pieces-Tiles :
      (fuel k : ℕ) (rest : Text)
      → rest ≢ []
      → length rest ≤ fuel
      → k * per + length rest ≡ total
      → Tiles (boundary k) c.end_ms (char_pieces fuel c span total per k rest)
  char_pieces-Tiles zero k rest ne fu len = absurd (omega (arith, length-pos rest ne))
  char_pieces-Tiles (suc fuel) k rest ne fu len =
      rw (char_pieces-cons fuel k rest ne) (elim (dec_lt per (length rest)) [
        | yes more ↦
            Tiles-cons (boundary k) (boundary (k + 1)) c.end_ms
              (char_piece c span total per k (take per rest)) _
              (piece-start k (take per rest) (omega (arith, length-pos rest ne)))
              (piece-end-mid k (take per rest) (omega (arith, next_index k))) (boundary_mono k)
              (char_pieces-Tiles fuel (k + 1) (drop per rest)
                (λ e. omega (arith, ap length e, length-drop per rest))
                (omega (arith, length-drop per rest))
                (omega (arith, length-drop per rest, next_index k)))
        | no last ↦
            rw
              (
                nil_of_length (drop per rest) (omega (arith, length-drop per rest)),
                char_pieces-nil fuel (k + 1),
              )
              (
                piece-start k (take per rest) (omega (arith, length-pos rest ne)),
                piece-end-last k (take per rest) (omega (arith, length-pos rest ne))
                    (omega (arith, next_index k)),
                boundary-le k (omega (arith, length-pos rest ne)),
              )
      ])

  char_pieces-text :
      (fuel k : ℕ) (rest : Text)
      → length rest ≤ fuel
      → all_text (char_pieces fuel c span total per k rest) ≡ rest
  char_pieces-text fuel k [] fu = rw (char_pieces-nil fuel k)
  char_pieces-text zero k (x ∷ rest) fu = absurd (omega arith)
  char_pieces-text (suc fuel) k (x ∷ rest) fu = rw (char_pieces-cons fuel k (x ∷ rest) (λ e. cc)) (
      ap (λ t. (char_piece c span total per k (take per (x ∷ rest))).text ++ t)
        (char_pieces-text fuel (k + 1) (drop per (x ∷ rest))
          (omega (arith, length-drop per (x ∷ rest))))
      ∙ unfold char_piece in take-append-drop per (x ∷ rest))

module _ (F : F64) (c : Cue) (max_ms : ℕ) where
  split_long_cue-chars :
      c.start_ms + max_ms < c.end_ms
      → c.text ≢ []
      → length (split_whitespace c.text) < 2
      → split_long_cue F c max_ms ≡ split_by_chars c (c.end_ms - c.start_ms) max_ms
  unfolding split_long_cue
  split_long_cue-chars long ne few = rw (
    lt→leb (c.end_ms - c.start_ms) max_ms (omega arith),
    is_nil-ne_nil c.text ne,
    lt→ltb (length (split_whitespace c.text)) 2 few,
  )

  split_by_chars-Tiles :
      (span : ℕ)
      → c.start_ms + span ≡ c.end_ms
      → c.end_ms < u32_mod
      → c.text ≢ []
      → length c.text < 2 ^ 32
      → Tiles c.start_ms c.end_ms (split_by_chars c span max_ms)
        × (all_text (split_by_chars c span max_ms) ≡ c.text)
  unfolding split_by_chars
  split_by_chars-Tiles span ends end_fits ne room = rw (one) (
    subst (λ s. Tiles s c.end_ms pieces) zero_boundary
        (char_pieces-Tiles c span total per pos room ends end_fits total 0 c.text ne (omega arith)
          (omega arith)),
    char_pieces-text c span total per pos room ends end_fits total 0 c.text (omega arith),
  )
    where
      total : ℕ
      total = length c.text

      one : max (length c.text) 1 ≡ length c.text
      one = omega (arith, length-pos c.text ne)

      per : ℕ
      per = chunk_size span max_ms total

      pos : 0 < per
      pos = omega arith

      pieces : List Cue
      pieces = char_pieces total c span total per 0 c.text

      zero_boundary : boundary c span total per pos room ends end_fits 0 ≡ c.start_ms
      zero_boundary = unfold boundary in omega arith

  -- Where the allowed duration is not zero, a cue without spaces that is too long is cut into pieces that
  -- tile exactly its time, in order and without gap or overlap, and whose texts together are its text.
  -- The times are 32-bit numbers and the text has fewer than 2^32 chars.
  pub split_long_cue-Tiles :
      0 < max_ms
      → c.start_ms + max_ms < c.end_ms
      → c.end_ms < u32_mod
      → c.text ≢ []
      → length (split_whitespace c.text) < 2
      → length c.text < 2 ^ 32
      → Tiles c.start_ms c.end_ms (split_long_cue F c max_ms)
        × (all_text (split_long_cue F c max_ms) ≡ c.text)
  split_long_cue-Tiles allowed long end_fits ne few room =
      rw (split_long_cue-chars long ne few)
        (split_by_chars-Tiles (c.end_ms - c.start_ms) (omega arith) end_fits ne room)

three_ne_nil : (s : Text) → length s ≡ 3 → s ≢ []
three_ne_nil [] h e = absurd (omega arith)
three_ne_nil (x ∷ s) h e = cc

two_parts : (span max_ms : ℕ) → 0 < max_ms → span ≤ 2 * max_ms → chunk_size span max_ms 3 ≡ 2
two_parts span max_ms pos short = ap (λ n. max (div_ceil 3 (max n 2)) 1) refl ∙ rw (at_most) refl
  where
    rounded : div_ceil span max_ms < 3
    rounded = (div-lt_iff_lt-mul pos).1 (omega arith)

    at_most : max (div_ceil span max_ms) 2 ≡ 2
    at_most = omega (arith, rounded)

-- Where three chars are to be cut in two, the first piece takes two of them: a cue whose duration is at
-- most twice the allowed one, which is not zero, and at least two ms over one and a half times it, rounded
-- down, gets a first piece that is still too long. The times are 32-bit numbers.
pub split_by_chars-overlong :
    (c : Cue) (span max_ms : ℕ)
    → length c.text ≡ 3
    → 0 < max_ms
    → max_ms + max_ms / 2 + 2 ≤ span
    → span ≤ 2 * max_ms
    → c.start_ms + span ≡ c.end_ms
    → c.end_ms < u32_mod
    → (p : Cue) × (rest : List Cue) × (split_by_chars c span max_ms ≡ p ∷ rest)
      × (p.start_ms + max_ms < p.end_ms)
split_by_chars-overlong c span max_ms three pos long short ends fits = (
  char_piece c span 3 2 0 (take 2 c.text),
  char_pieces 2 c span 3 2 1 (drop 2 c.text),
  unfold split_by_chars in
      rw (three, halves)
        (char_pieces-cons c span 3 2 (omega arith) (omega arith) ends fits 2 0 c.text
          (three_ne_nil c.text three)),
  unfold boundary in
      omega (
        arith,
        piece-start c span 3 2 (omega arith) (omega arith) ends fits 0 (take 2 c.text)
            (omega arith),
        piece-end-mid c span 3 2 (omega arith) (omega arith) ends fits 0 (take 2 c.text)
            (omega arith),
      ),
)
  where
    halves : chunk_size span max_ms 3 ≡ 2
    halves = two_parts span max_ms pos short
