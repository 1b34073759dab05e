-- ===== src/Srt/Timestamp.antt =====
-- `fmt_ts` and `parse_ts` of src/srt.rs are inverse.
use asrsub.Prelude.{
  ℕ, ◌+◌, ◌*◌, ◌/◌, ◌%◌, ◌<◌, ◌≤◌, ◌≡◌, ◌≢◌, refl, ap, ◌∙◌, List, [], ◌∷◌, ◌++◌, some, arith, All,
  All-append, All-mono, false, take, take-length_le, u32_mod, u32_max, append-nil,
}
use asrsub.Text.{Text, trim, split_char, is_whitespace}
use asrsub.Text.Decimal.{
  IsDigit, pad_left, pad_left-IsDigit, parse_uint-pad_left, length-pad_left_3,
}
use asrsub.Text.Trim.{NonSpace, IsDigit-NonSpace, IsTrimmed-nonspace, trim-IsTrimmed}
use asrsub.Text.Split.{Lacks, split_char-append, split_char-none, split_once_by-append}
use asrsub.Srt.{parse_u32, parse_ts, fmt_ts, sum_parts, pad_right_3, is_fraction_mark}

-- The chars of a timestamp.
abbrev pub IsStamp : ℕ → Type 0
IsStamp c = (b',' ≤ c) × (c ≤ b':') × (c ≢ b'-')

IsDigit-IsStamp : (c : ℕ) → IsDigit c → IsStamp c
IsDigit-IsStamp c h = omega arith

pub IsStamp-NonSpace : (c : ℕ) → IsStamp c → NonSpace c
unfolding is_whitespace
IsStamp-NonSpace c h = ground arith

pad_left-IsStamp : (w n : ℕ) → All IsStamp (pad_left w n)
pad_left-IsStamp w n =
    All-mono IsDigit IsStamp (pad_left w n) IsDigit-IsStamp (pad_left-IsDigit w n)

pub fmt_ts-IsStamp : (ms : ℕ) → All IsStamp (fmt_ts ms)
unfolding fmt_ts
fmt_ts-IsStamp ms = All-append IsStamp (pad_left 2 _) _ (pad_left-IsStamp 2 _) (
  omega arith,
  All-append IsStamp (pad_left 2 _) _ (pad_left-IsStamp 2 _) (
    omega arith,
    All-append IsStamp (pad_left 2 _) _ (pad_left-IsStamp 2 _) (omega arith, pad_left-IsStamp 3 _),
  ),
)

trim-pad_left : (w n : ℕ) → trim (pad_left w n) ≡ pad_left w n
trim-pad_left w n = trim-IsTrimmed (pad_left w n) (
    IsTrimmed-nonspace (pad_left w n)
      (All-mono IsDigit NonSpace (pad_left w n) IsDigit-NonSpace (pad_left-IsDigit w n)))

pad_left-Lacks : (w n d : ℕ) → b'9' < d → Lacks d (pad_left w n)
pad_left-Lacks w n d h =
    All-mono IsDigit (λ c. c ≢ d) (pad_left w n) (λ c p. omega arith) (pad_left-IsDigit w n)

pad_left-unmarked : (w n : ℕ) → All (λ c. is_fraction_mark c ≡ false) (pad_left w n)
pad_left-unmarked w n =
    All-mono IsDigit (λ c. is_fraction_mark c ≡ false) (pad_left w n) (λ c p. ground arith)
      (pad_left-IsDigit w n)

parse_u32-pad_left : (w n : ℕ) → n ≤ u32_max → parse_u32 (trim (pad_left w n)) ≡ some n
unfolding parse_u32
parse_u32-pad_left w n h = rw (trim-pad_left w n) (parse_uint-pad_left u32_max w n h)

pad_right_3-pad_left :
    (n : ℕ) → n < 1000 → take 3 (pad_right_3 (trim (pad_left 3 n))) ≡ pad_left 3 n
unfolding pad_right_3
pad_right_3-pad_left n h =
    rw (trim-pad_left 3 n, length-pad_left_3 n h, append-nil)
      (take-length_le 3 (pad_left 3 n) (omega (arith, length-pad_left_3 n h)))

parse_millis : (n : ℕ) → n < 1000 → parse_u32 (take 3 (pad_right_3 (trim (pad_left 3 n)))) ≡ some n
unfolding parse_u32
parse_millis n h = rw (pad_right_3-pad_left n h) (parse_uint-pad_left u32_max 3 n (omega arith))

-- The sum of padded parts, each within its type.
sum_parts-padded :
    (h m s ms : ℕ)
    → h ≤ u32_max
    → m ≤ u32_max
    → s ≤ u32_max
    → ms < 1000
    → sum_parts (pad_left 2 h ∷ pad_left 2 m ∷ (pad_left 2 s ++ b',' ∷ pad_left 3 ms) ∷ [])
      ≡ some ((h * 3_600_000 + m * 60_000 + s * 1000 + ms) % u32_mod)
unfolding sum_parts
sum_parts-padded h m s ms p q r t =
    rw
      (
        parse_u32-pad_left 2 h p,
        parse_u32-pad_left 2 m q,
        split_once_by-append is_fraction_mark (pad_left 2 s) b',' (pad_left 3 ms)
            (pad_left-unmarked 2 s) refl,
        parse_u32-pad_left 2 s r,
        parse_millis ms t,
      )
      refl

fmt_ts-parts :
    (ms : ℕ)
    → split_char b':' (fmt_ts ms)
      ≡ pad_left 2 (ms / 3_600_000)
        ∷ pad_left 2 (ms % 3_600_000 / 60_000)
        ∷ (pad_left 2 (ms % 3_600_000 % 60_000 / 1000)
            ++ b',' ∷ pad_left 3 (ms % 3_600_000 % 60_000 % 1000))
        ∷ []
unfolding fmt_ts
fmt_ts-parts ms =
    split_char-append b':' (pad_left 2 (ms / 3_600_000)) _ (pad_left-Lacks 2 _ b':' (omega arith))
    ∙ ap (◌∷◌ (pad_left 2 (ms / 3_600_000))) (
        split_char-append b':' (pad_left 2 (ms % 3_600_000 / 60_000)) _
          (pad_left-Lacks 2 _ b':' (omega arith))
        ∙ ap (◌∷◌ (pad_left 2 (ms % 3_600_000 / 60_000))) (split_char-none b':' _ seconds))
  where
    seconds : Lacks b':' (
        pad_left 2 (ms % 3_600_000 % 60_000 / 1000)
        ++ b',' ∷ pad_left 3 (ms % 3_600_000 % 60_000 % 1000))
    seconds =
        All-append (λ c. c ≢ b':') (pad_left 2 (ms % 3_600_000 % 60_000 / 1000)) _
          (pad_left-Lacks 2 _ b':' (omega arith))
          (omega arith, pad_left-Lacks 3 _ b':' (omega arith))

-- Any text that trims to a printed timestamp is read as that timestamp.
pub parse_ts-trimmed :
    (ms : ℕ) (v : Text) → ms < u32_mod → trim v ≡ fmt_ts ms → parse_ts v ≡ some ms
unfolding parse_ts
parse_ts-trimmed ms v h e =
    ap (λ t. sum_parts (split_char b':' t)) e
    ∙ ap sum_parts (fmt_ts-parts ms)
    ∙ sum_parts-padded (ms / 3_600_000) (ms % 3_600_000 / 60_000) (ms % 3_600_000 % 60_000 / 1000)
        (ms % 3_600_000 % 60_000 % 1000) (omega arith) (omega arith) (omega arith) (omega arith)
    ∙ ap some (omega arith)

pub trim-fmt_ts : (ms : ℕ) → trim (fmt_ts ms) ≡ fmt_ts ms
trim-fmt_ts ms = trim-IsTrimmed (fmt_ts ms) (
    IsTrimmed-nonspace (fmt_ts ms)
      (All-mono IsStamp NonSpace (fmt_ts ms) IsStamp-NonSpace (fmt_ts-IsStamp ms)))

-- For every number of milliseconds that a `u32` can hold, `parse_ts` reads back what `fmt_ts`
-- prints.
pub parse_ts-fmt_ts : (ms : ℕ) → ms < u32_mod → parse_ts (fmt_ts ms) ≡ some ms
parse_ts-fmt_ts ms h = parse_ts-trimmed ms (fmt_ts ms) h (trim-fmt_ts ms)

sum_parts-lt : (ps : List Text) (ms : ℕ) → sum_parts ps ≡ some ms → ms < u32_mod
unfolding sum_parts
sum_parts-lt [] ms h = ground arith
sum_parts-lt (a ∷ []) ms h = ground arith
sum_parts-lt (a ∷ b ∷ []) ms h = ground arith
sum_parts-lt (a ∷ b ∷ c ∷ more) ms h = ground arith

-- Whatever the text, a parsed timestamp is a `u32`.
pub parse_ts-lt : (v : Text) (ms : ℕ) → parse_ts v ≡ some ms → ms < u32_mod
unfolding parse_ts
parse_ts-lt v ms h = sum_parts-lt (split_char b':' (trim v)) ms h
