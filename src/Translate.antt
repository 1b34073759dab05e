-- ===== src/Translate.antt =====
-- src/translate.rs: the merging of translated chunks.
pub mod Stitch
use asrsub.Prelude.{
  ℕ, zero, suc, ◌+◌, Bool, true, false, List, [], ◌∷◌, ◌++◌, Option, none, some, ◌==◌,
  if◌then◌else◌, length, set, replicate, sort_by_key,
}
use asrsub.Text.{Text}

-- One chunk with its input index and its parsed output.
pub record ChunkResult : Type 0 where
  pub index : ℕ
  pub chunk : List Text
  pub parsed : Option (List Text)

-- `out[pos + i] = t` for each of the lines; a position past the end makes the source panic, and here
-- writes nothing.
unfoldable pub write_at : ℕ → List Text → List Text → List Text
write_at pos [] out = out
write_at pos (t ∷ v) out = write_at (pos + 1) v (set out pos t)

-- The lines of a chunk that did not land, with their positions.
unfoldable pub fall_back : ℕ → List Text → List (ℕ × Text)
fall_back pos [] = []
fall_back pos (line ∷ chunk) = (pos, line) ∷ fall_back (pos + 1) chunk

-- The output of a chunk, where it has as many lines as the chunk.
unfoldable pub landed : ChunkResult → Option (List Text)
landed r = elim r.parsed [
  | none ↦ none
  | some v ↦ if length v == length r.chunk then some v else none
]

unfoldable pub stitch :
    ℕ → List Text → List (ℕ × Text) → List ChunkResult → List Text × List (ℕ × Text)
stitch pos out pending [] = (out, pending)
stitch pos out pending (r ∷ rest) = elim (landed r) [
  | some v ↦ stitch (pos + length r.chunk) (write_at pos v out) pending rest
  | none ↦ stitch (pos + length r.chunk) out (pending ++ fall_back pos r.chunk) rest
]

abbrev pub index_of : ChunkResult → ℕ
index_of r = r.index

unfoldable pub stitch_chunks : ℕ → List ChunkResult → List Text × List (ℕ × Text)
stitch_chunks total results = stitch 0 (replicate total []) [] (sort_by_key index_of results)
