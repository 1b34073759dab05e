-- ===== src/Srt/Contiguous.antt =====
-- `ensure_contiguous` of src/srt.rs.
use mathlib.Core.List.{Perm}
use mathlib.Core.List.Perm
use asrsub.Prelude.{
  ℕ, ◌≤◌, ◌≡◌, refl, sym, ap, ◌∙◌, List, [], ◌∷◌, map, arith, ltb, if◌then◌else◌, subst, IsSortedBy,
  SortedFrom, sort_by_key, sort_by_key-perm, sort_by_key-IsSortedBy_id,
}
use asrsub.Text.{Text}
use asrsub.Srt.{Cue}

abbrev pub start : Cue → ℕ
start c = c.start_ms

-- The body of the loop: `cues[i]` against `cues[i - 1]`.
unfoldable pub clamp_after : Cue → Cue → Cue
clamp_after prev c =
    let s = if ltb c.start_ms prev.end_ms then prev.end_ms else c.start_ms in
    record c { start_ms = s; end_ms = if ltb c.end_ms s then s else c.end_ms }

unfoldable pub clamp_all : Cue → List Cue → List Cue
unfolding clamp_after
clamp_all prev [] = []
clamp_all prev (c ∷ rest) = clamp_after prev c ∷ clamp_all (clamp_after prev c) rest

unfoldable pub clamp_sorted : List Cue → List Cue
unfolding clamp_all
clamp_sorted [] = []
clamp_sorted (c ∷ rest) = c ∷ clamp_all c rest

unfoldable pub ensure_contiguous : List Cue → List Cue
unfolding clamp_sorted
ensure_contiguous cues = clamp_sorted (sort_by_key start cues)

-- Each cue starts where the one before has ended, or later, and ends no earlier than it starts.
abbrev pub Follows : Cue → List Cue → Type 0
Follows prev [] = Unit
Follows prev (c ∷ rest) = (prev.end_ms ≤ c.start_ms) × (c.start_ms ≤ c.end_ms) × Follows c rest

abbrev pub NoOverlap : List Cue → Type 0
NoOverlap [] = Unit
NoOverlap (c ∷ rest) = Follows c rest

abbrev pub IsTimeline : List Cue → Type 0
IsTimeline [] = Unit
IsTimeline (c ∷ rest) = (c.start_ms ≤ c.end_ms) × Follows c rest

abbrev pub texts : List Cue → List Text
texts = map (λ c. c.text)

clamp_all-Follows : (prev : Cue) (cues : List Cue) → Follows prev (clamp_all prev cues)
unfolding clamp_all
clamp_all-Follows prev [] = tt
clamp_all-Follows prev (c ∷ rest) = (
  unfold clamp_after in ground arith,
  unfold clamp_after in ground arith,
  clamp_all-Follows (clamp_after prev c) rest,
)

clamp_sorted-NoOverlap : (cues : List Cue) → NoOverlap (clamp_sorted cues)
unfolding clamp_sorted
clamp_sorted-NoOverlap [] = tt
clamp_sorted-NoOverlap (c ∷ rest) = clamp_all-Follows c rest

texts-clamp_all : (prev : Cue) (cues : List Cue) → texts (clamp_all prev cues) ≡ texts cues
unfolding clamp_all
texts-clamp_all prev [] = refl
texts-clamp_all prev (c ∷ rest) = ap (◌∷◌ c.text) (texts-clamp_all (clamp_after prev c) rest)

texts-clamp_sorted : (cues : List Cue) → texts (clamp_sorted cues) ≡ texts cues
unfolding clamp_sorted
texts-clamp_sorted [] = refl
texts-clamp_sorted (c ∷ rest) = ap (◌∷◌ c.text) (texts-clamp_all c rest)

-- Whatever the cues, after the pass no cue overlaps the one before, and every cue but the first
-- ends no earlier than it starts; the texts are those of the cues sorted stably by their start, a
-- permutation of the input's, none lost and none doubled.
pub ensure_contiguous-NoOverlap :
    (cues : List Cue)
    → NoOverlap (ensure_contiguous cues)
      × (texts (ensure_contiguous cues) ≡ texts (sort_by_key start cues))
      × Perm (texts (ensure_contiguous cues)) (texts cues)
unfolding ensure_contiguous
ensure_contiguous-NoOverlap cues = (
  clamp_sorted-NoOverlap (sort_by_key start cues),
  texts-clamp_sorted (sort_by_key start cues),
  subst (λ t. Perm t (texts cues)) (sym (texts-clamp_sorted (sort_by_key start cues)))
      (Perm.map (λ (c : Cue). c.text) (sort_by_key-perm start cues)),
)

clamp_all-id : (prev : Cue) (cues : List Cue) → Follows prev cues → clamp_all prev cues ≡ cues
unfolding clamp_all
clamp_all-id prev [] h = refl
clamp_all-id prev (c ∷ rest) h =
    ap (λ d. d ∷ clamp_all d rest) kept ∙ ap (◌∷◌ c) (clamp_all-id c rest h.2)
  where
    kept : clamp_after prev c ≡ c
    kept = unfold clamp_after in ground arith

SortedFrom-Follows :
    (c : Cue) (rest : List Cue)
    → c.start_ms ≤ c.end_ms
    → Follows c rest
    → SortedFrom start c.start_ms rest
SortedFrom-Follows c [] h f = tt
SortedFrom-Follows c (d ∷ rest) h f = (omega arith, SortedFrom-Follows d rest f.1 f.2)

IsSortedBy-IsTimeline : (cues : List Cue) → IsTimeline cues → IsSortedBy start cues
IsSortedBy-IsTimeline [] h = tt
IsSortedBy-IsTimeline (c ∷ rest) h = SortedFrom-Follows c rest h.0 h.1

clamp_sorted-id : (cues : List Cue) → IsTimeline cues → clamp_sorted cues ≡ cues
unfolding clamp_sorted
clamp_sorted-id [] h = refl
clamp_sorted-id (c ∷ rest) h = ap (◌∷◌ c) (clamp_all-id c rest h.1)

-- Cues that are in order, do not overlap and end no earlier than they start are left as they are.
pub ensure_contiguous-IsTimeline :
    (cues : List Cue) → IsTimeline cues → ensure_contiguous cues ≡ cues
unfolding ensure_contiguous
ensure_contiguous-IsTimeline cues h =
    ap clamp_sorted (sort_by_key-IsSortedBy_id start cues (IsSortedBy-IsTimeline cues h))
    ∙ clamp_sorted-id cues h
