-- ===== src/Srt/WrittenBlock.antt =====
-- One cue as `write_srt` of src/srt.rs prints it, under `parse_srt`'s loop over a block's lines.
use asrsub.Prelude.{
  ℕ, ◌<◌, ◌≡◌, ◌≢◌, refl, sym, ap, ◌∙◌, [], ◌∷◌, ◌++◌, some, arith, All, All-append, All-mono, true,
  u32_mod, append_assoc, subst, cons_of_ne_nil, append-ne-nil_left, is_nil-ne_nil,
}
use asrsub.Text.{
  Text, nl, cr, trim, split_char, split_once, contains, lines, end_lines, trim_end, join,
}
use asrsub.Text.Decimal.{
  IsDigit, to_string, to_string-IsDigit, to_string-ne-nil, pad_left, pad_left-ne-nil,
}
use asrsub.Text.Trim.{
  NonSpace, IsTrimmed, IsDigit-NonSpace, IsTrimmed-nonspace, IsTrimmed-framed, trim-IsTrimmed,
  trim-space_before, trim-space_after,
}
use asrsub.Text.Split.{
  Lacks, split_char-append, split_char-none, split_once-append, end_lines-cons, end_lines-last,
  split_once-Lacks,
}
use asrsub.Srt.{
  Cue, Block, new_block, arrow, fmt_ts, parse_ts_line, read_line, read_lines, finish, parse_block,
}
use asrsub.Srt.Timestamp.{IsStamp, IsStamp-NonSpace, fmt_ts-IsStamp, parse_ts-trimmed}

-- What the format can hold: times of 32 bits, and a trimmed text of one line that is not empty.
pub record IsClean (c : Cue) : Type 0 where
  pub start_fits : c.start_ms < u32_mod
  pub end_fits : c.end_ms < u32_mod
  pub one_line : Lacks nl c.text
  pub no_cr : Lacks cr c.text
  pub trimmed : IsTrimmed c.text
  pub nonempty : c.text ≢ []

abbrev pub ts_line : ℕ → ℕ → Text
ts_line s e = fmt_ts s ++ b' ' ∷ (arrow ++ b' ' ∷ fmt_ts e)

fmt_ts-Lacks : (ms d : ℕ) → (IsStamp d → ⊥) → Lacks d (fmt_ts ms)
fmt_ts-Lacks ms d h =
    All-mono IsStamp (λ c. c ≢ d) (fmt_ts ms) (λ c p e. h (subst IsStamp e p)) (fmt_ts-IsStamp ms)

fmt_ts-eq-cons : (ms : ℕ) → (c : ℕ) × (s : Text) × (fmt_ts ms ≡ c ∷ s)
unfolding fmt_ts
fmt_ts-eq-cons ms =
    cons_of_ne_nil (fmt_ts ms) (append-ne-nil_left (pad_left 2 _) _ (pad_left-ne-nil 2 _))

fmt_ts-NonSpace : (ms : ℕ) → All NonSpace (fmt_ts ms)
fmt_ts-NonSpace ms = All-mono IsStamp NonSpace (fmt_ts ms) IsStamp-NonSpace (fmt_ts-IsStamp ms)

trim-stamp_after : (ms : ℕ) → trim (fmt_ts ms ++ b' ' ∷ []) ≡ fmt_ts ms
trim-stamp_after ms =
    let (c, s, e) = fmt_ts-eq-cons ms in
    ap (λ t. trim (t ++ b' ' ∷ [])) e
    ∙ trim-space_after c s (subst (All NonSpace) e (fmt_ts-NonSpace ms))
    ∙ sym e

split_once-ts_line :
    (s e : ℕ) → split_once arrow (ts_line s e) ≡ some (fmt_ts s ++ b' ' ∷ [], b' ' ∷ fmt_ts e)
split_once-ts_line s e =
    ap (split_once arrow) (sym (append_assoc (fmt_ts s) (b' ' ∷ []) (arrow ++ b' ' ∷ fmt_ts e)))
    ∙ split_once-append b'-' (b'-' ∷ b'>' ∷ []) (fmt_ts s ++ b' ' ∷ []) (b' ' ∷ fmt_ts e) (
        All-append (λ c. c ≢ b'-') (fmt_ts s) (b' ' ∷ []) (fmt_ts-Lacks s b'-' (λ p. p.2 refl))
          (omega arith))

parse_ts_line-ts_line :
    (s e : ℕ) → s < u32_mod → e < u32_mod → parse_ts_line (ts_line s e) ≡ some (s, e)
unfolding parse_ts_line
parse_ts_line-ts_line s e hs he = rw (
  split_once-ts_line s e,
  parse_ts-trimmed s (fmt_ts s ++ b' ' ∷ []) hs (trim-stamp_after s),
  parse_ts-trimmed e (b' ' ∷ fmt_ts e) he
      (trim-space_before (fmt_ts e) (IsTrimmed-nonspace (fmt_ts e) (fmt_ts-NonSpace e))),
)

trim_end-fmt_ts : (ms : ℕ) → trim_end (fmt_ts ms) ≡ fmt_ts ms
trim_end-fmt_ts ms = (IsTrimmed-nonspace (fmt_ts ms) (fmt_ts-NonSpace ms)).1

fmt_ts-ne-nil : (ms : ℕ) → fmt_ts ms ≢ []
fmt_ts-ne-nil ms e = let (c, s, p) = fmt_ts-eq-cons ms in cc (p, e)

-- A text that starts with digits or a timestamp, and ends in a trimmed text.
IsTrimmed-between :
    (s m t : Text) → All NonSpace s → s ≢ [] → t ≢ [] → trim_end t ≡ t → IsTrimmed (s ++ (m ++ t))
IsTrimmed-between [] m t h ne nt e = absurd (ne refl)
IsTrimmed-between (c ∷ s) m t h ne nt e =
    subst (λ r. IsTrimmed (c ∷ r)) (append_assoc s m t) (IsTrimmed-framed c (s ++ m) t h.0 nt e)

trim-ts_line : (s e : ℕ) → trim (ts_line s e) ≡ ts_line s e
trim-ts_line s e = trim-IsTrimmed (ts_line s e) (
    IsTrimmed-between (fmt_ts s) (b' ' ∷ (arrow ++ b' ' ∷ [])) (fmt_ts e) (fmt_ts-NonSpace s)
      (fmt_ts-ne-nil s) (fmt_ts-ne-nil e) (trim_end-fmt_ts e))

-- The three lines of a written cue.
abbrev pub cue_block : ℕ → Cue → Text
cue_block idx c = to_string idx ++ nl ∷ (ts_line c.start_ms c.end_ms ++ nl ∷ c.text)

to_string-NonSpace : (n : ℕ) → All NonSpace (to_string n)
to_string-NonSpace n =
    All-mono IsDigit NonSpace (to_string n) IsDigit-NonSpace (to_string-IsDigit n)

pub to_string-Lacks : (n d : ℕ) → (IsDigit d → ⊥) → Lacks d (to_string n)
to_string-Lacks n d h =
    All-mono IsDigit (λ c. c ≢ d) (to_string n) (λ c p e. h (subst IsDigit e p))
      (to_string-IsDigit n)

pub ts_line-Lacks : (s e d : ℕ) → d < b' ' → Lacks d (ts_line s e)
ts_line-Lacks s e d h =
    All-append (λ c. c ≢ d) (fmt_ts s) _ (fmt_ts-Lacks s d (λ p. omega arith))
      (
        omega arith,
        (
          omega arith,
          (omega arith, (omega arith, (omega arith, fmt_ts-Lacks e d (λ p. omega arith)))),
        ),
      )

trim-cue_block : (idx : ℕ) (c : Cue) → IsClean c → trim (cue_block idx c) ≡ cue_block idx c
trim-cue_block idx c h = trim-IsTrimmed (cue_block idx c) (
    subst (λ t. IsTrimmed (to_string idx ++ t))
      (ap (◌∷◌ nl) (append_assoc (ts_line c.start_ms c.end_ms) (nl ∷ []) c.text))
      (IsTrimmed-between (to_string idx) (nl ∷ (ts_line c.start_ms c.end_ms ++ nl ∷ [])) c.text
        (to_string-NonSpace idx) (to_string-ne-nil idx) h.nonempty h.trimmed.1))

lines-cue_block :
    (idx : ℕ) (c : Cue)
    → IsClean c
    → lines (cue_block idx c) ≡ to_string idx ∷ ts_line c.start_ms c.end_ms ∷ c.text ∷ []
unfolding lines
lines-cue_block idx c h = ap end_lines pieces ∙ ended
  where
    pieces :
        split_char nl (cue_block idx c) ≡ to_string idx ∷ ts_line c.start_ms c.end_ms ∷ c.text ∷ []
    pieces =
        split_char-append nl (to_string idx) _ (to_string-Lacks idx nl (λ p. omega arith))
        ∙ ap (◌∷◌ (to_string idx)) (
            split_char-append nl (ts_line c.start_ms c.end_ms) _
              (ts_line-Lacks _ _ nl (omega arith))
            ∙ ap (◌∷◌ (ts_line c.start_ms c.end_ms)) (split_char-none nl c.text h.one_line))

    ended :
        end_lines (to_string idx ∷ ts_line c.start_ms c.end_ms ∷ c.text ∷ [])
        ≡ to_string idx ∷ ts_line c.start_ms c.end_ms ∷ c.text ∷ []
    ended =
        end_lines-cons (to_string idx) (ts_line c.start_ms c.end_ms) (c.text ∷ [])
          (to_string-Lacks idx cr (λ p. omega arith))
        ∙ ap (◌∷◌ (to_string idx)) (
            end_lines-cons (ts_line c.start_ms c.end_ms) c.text []
              (ts_line-Lacks c.start_ms c.end_ms cr (omega arith))
            ∙ ap (◌∷◌ (ts_line c.start_ms c.end_ms)) (end_lines-last c.text h.nonempty))

-- A line before the timestamp that holds no arrow is skipped.
read_line-index : (n : ℕ) → read_line new_block (to_string n) ≡ new_block
unfolding read_line contains
read_line-index n = rw (
  trim-IsTrimmed (to_string n) (IsTrimmed-nonspace (to_string n) (to_string-NonSpace n)),
  is_nil-ne_nil (to_string n) (to_string-ne-nil n),
  split_once-Lacks b'-' (b'-' ∷ b'>' ∷ []) (to_string n)
      (to_string-Lacks n b'-' (λ p. omega arith)),
)

abbrev seen : Cue → Block
seen c = record { start = some c.start_ms; end = some c.end_ms; body = []; ts_seen = true }

pub ts_line-ne-nil : (s e : ℕ) → ts_line s e ≢ []
ts_line-ne-nil s e = append-ne-nil_left (fmt_ts s) _ (fmt_ts-ne-nil s)

read_line-ts_line :
    (c : Cue) → IsClean c → read_line new_block (ts_line c.start_ms c.end_ms) ≡ seen c
unfolding read_line contains
read_line-ts_line c h = rw (
  trim-ts_line c.start_ms c.end_ms,
  is_nil-ne_nil (ts_line c.start_ms c.end_ms) (ts_line-ne-nil c.start_ms c.end_ms),
  split_once-ts_line c.start_ms c.end_ms,
  parse_ts_line-ts_line c.start_ms c.end_ms h.start_fits h.end_fits,
)

read_line-text :
    (c : Cue) → IsClean c → read_line (seen c) c.text ≡ record (seen c) { body = c.text ∷ [] }
unfolding read_line
read_line-text c h = rw (trim-IsTrimmed c.text h.trimmed, is_nil-ne_nil c.text h.nonempty)

finish-text : (c : Cue) → IsClean c → finish (record (seen c) { body = c.text ∷ [] }) ≡ c ∷ []
unfolding finish join
finish-text c h = rw (trim-IsTrimmed c.text h.trimmed, is_nil-ne_nil c.text h.nonempty)

read_lines-cue :
    (idx : ℕ) (c : Cue)
    → IsClean c
    → read_lines new_block (to_string idx ∷ ts_line c.start_ms c.end_ms ∷ c.text ∷ [])
      ≡ record (seen c) { body = c.text ∷ [] }
unfolding read_lines
read_lines-cue idx c h =
    ap (λ b. read_line (read_line b (ts_line c.start_ms c.end_ms)) c.text) (read_line-index idx)
    ∙ ap (λ b. read_line b c.text) (read_line-ts_line c h)
    ∙ read_line-text c h

cue_block-ne-nil : (idx : ℕ) (c : Cue) → cue_block idx c ≢ []
cue_block-ne-nil idx c = append-ne-nil_left (to_string idx) _ (to_string-ne-nil idx)

pub parse_block-cue_block : (idx : ℕ) (c : Cue) → IsClean c → parse_block (cue_block idx c) ≡ c ∷ []
unfolding parse_block
parse_block-cue_block idx c h =
    rw
      (
        trim-cue_block idx c h,
        is_nil-ne_nil (cue_block idx c) (cue_block-ne-nil idx c),
        lines-cue_block idx c h,
        read_lines-cue idx c h,
      )
      (finish-text c h)
