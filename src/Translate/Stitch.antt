-- ===== src/Translate/Stitch.antt =====
-- What `stitch_chunks` fills in and what it leaves to the fallback.
use asrsub.Prelude.{
  ℕ, zero, suc, ◌+◌, ◌≡◌, refl, sym, ◌∙◌, subst, List, [], ◌∷◌, ◌++◌, Option, none, some, length,
  length-append, replicate, get_elem?, All, All-append, sort_by_key, arith, append_assoc,
  Option-cases, inl, inr,
}
use asrsub.Text.{Text}
use asrsub.Translate.{ChunkResult, write_at, fall_back, landed, stitch, index_of, stitch_chunks}

abbrev pub blanks : ℕ → List Text
blanks n = replicate n []

-- The lines that a chunk contributes: its output, or blanks.
abbrev pub filled_by : Option (List Text) → List Text → List Text
filled_by none chunk = blanks (length chunk)
filled_by (some v) chunk = v

abbrev pub filled : List ChunkResult → List Text
filled [] = []
filled (r ∷ rest) = filled_by (landed r) r.chunk ++ filled rest

-- The source lines of the chunks in a row.
abbrev pub sources : List ChunkResult → List Text
sources [] = []
sources (r ∷ rest) = r.chunk ++ sources rest

stitch-some :
    (pos : ℕ) (out : List Text) (pending : List (ℕ × Text)) (r : ChunkResult)
    (rs : List ChunkResult) (v : List Text)
    → landed r ≡ some v
    → stitch pos out pending (r ∷ rs)
      ≡ stitch (pos + length r.chunk) (write_at pos v out) pending rs
unfolding stitch
stitch-some pos out pending r rs v e = rw (e, stitch) refl

stitch-none :
    (pos : ℕ) (out : List Text) (pending : List (ℕ × Text)) (r : ChunkResult)
    (rs : List ChunkResult)
    → landed r ≡ none
    → stitch pos out pending (r ∷ rs)
      ≡ stitch (pos + length r.chunk) out (pending ++ fall_back pos r.chunk) rs
unfolding stitch
stitch-none pos out pending r rs e = rw (e, stitch) refl

at-append :
    (before : List Text) (x : Text) (after : List Text) (pos : ℕ)
    → pos ≡ length before
    → get_elem? (before ++ x ∷ after) pos ≡ some x
at-append [] x after zero h = refl
at-append [] x after (suc pos) h = absurd (omega arith)
at-append (b ∷ before) x after zero h = absurd (omega arith)
at-append (b ∷ before) x after (suc pos) h = at-append before x after pos (omega arith)

-- An entry names the line at its position.
abbrev pub IsLineOf : List Text → ℕ × Text → Type 0
IsLineOf lines e = get_elem? lines e.0 ≡ some e.1

fall_back-IsLineOf :
    (before chunk after : List Text) (pos : ℕ)
    → pos ≡ length before
    → All (IsLineOf (before ++ (chunk ++ after))) (fall_back pos chunk)
unfolding fall_back
fall_back-IsLineOf before [] after pos h = tt
fall_back-IsLineOf before (line ∷ chunk) after pos h = (
  at-append before line (chunk ++ after) pos h,
  subst (λ ls. All (IsLineOf ls) (fall_back (pos + 1) chunk))
      (append_assoc before (line ∷ []) (chunk ++ after))
      (fall_back-IsLineOf (before ++ line ∷ []) chunk after (pos + 1)
        (omega (arith, length-append before (line ∷ []), h))),
)

stitch-IsLineOf :
    (lines before : List Text) (pos : ℕ) (out : List Text) (pending : List (ℕ × Text))
    (rs : List ChunkResult)
    → lines ≡ before ++ sources rs
    → pos ≡ length before
    → All (IsLineOf lines) pending
    → All (IsLineOf lines) (stitch pos out pending rs).1
unfolding stitch
stitch-IsLineOf lines before pos out pending [] is h named = named
stitch-IsLineOf lines before pos out pending (r ∷ rs) is h named = elim (Option-cases (landed r)) [
  | inr (v, e) ↦ rw (stitch-some pos out pending r rs v e) (
      stitch-IsLineOf lines (before ++ r.chunk) (pos + length r.chunk) (write_at pos v out) pending
        rs regroup moved named)
  | inl e ↦ rw (stitch-none pos out pending r rs e) (
      stitch-IsLineOf lines (before ++ r.chunk) (pos + length r.chunk) out
        (pending ++ fall_back pos r.chunk) rs regroup moved
        (All-append (IsLineOf lines) pending (fall_back pos r.chunk) named (
          subst (λ ls. All (IsLineOf ls) (fall_back pos r.chunk)) (sym is)
            (fall_back-IsLineOf before r.chunk (sources rs) pos h))))
]
  where
    regroup : lines ≡ (before ++ r.chunk) ++ sources rs
    regroup = is ∙ sym (append_assoc before r.chunk (sources rs))

    moved : pos + length r.chunk ≡ length (before ++ r.chunk)
    moved = omega (arith, length-append before r.chunk, h)

-- Every entry that is left to the fallback names a source line under the line's own position.
pub stitch_chunks-IsLineOf :
    (results : List ChunkResult) (total : ℕ)
    → All (IsLineOf (sources (sort_by_key index_of results))) (stitch_chunks total results).1
unfolding stitch_chunks
stitch_chunks-IsLineOf results total =
    stitch-IsLineOf (sources (sort_by_key index_of results)) [] 0 (blanks total) []
      (sort_by_key index_of results) refl refl tt
