-- ===== src/Tests/TranslateTests.antt =====
-- Runs of the merging of chunks and of the reduction of outcomes.
use asrsub.Prelude.{List, [], ◌∷◌, some, none, All, sort_by_key}
use asrsub.Text.{codes}
use asrsub.Translate.{ChunkResult, index_of, stitch_chunks}
use asrsub.Translate.Stitch.{sources, IsLineOf, stitch_chunks-IsLineOf}
use asrsub.Report.{Signed, EpisodeKind, TargetStatus, FailureClass, TargetRunResult}
use asrsub.Report.Reduce.{reduce_target_outcomes}
use asrsub.Report.Aggregate.{IsReduced, reduce_target_outcomes-IsReduced}

-- The second chunk came first, and the first is one line short.
abbrev results : List ChunkResult
results =
    record { index = 1; chunk = codes "c" ∷ []; parsed = some (codes "z" ∷ []) }
    ∷ record { index = 0; chunk = codes "a" ∷ codes "b" ∷ []; parsed = some (codes "x" ∷ []) }
    ∷ []

stitch_chunks-IsLineOf_example :
    All (IsLineOf (sources (sort_by_key index_of results))) (stitch_chunks 3 results).1
stitch_chunks-IsLineOf_example = stitch_chunks-IsLineOf results 3

abbrev target : TargetRunResult
target = record {
  language = codes "en";
  status = TargetStatus.failed FailureClass.source;
  artifact_sha256 = none;
}

reduce_target_outcomes-IsReduced_example : IsReduced (target ∷ []) none (
    reduce_target_outcomes
      (λ b. b)
      EpisodeKind.series
      (Signed.pos 7)
      (codes "t")
      (some 1)
      none
      (target ∷ [])
      none)
reduce_target_outcomes-IsReduced_example =
    reduce_target_outcomes-IsReduced (λ b. b) EpisodeKind.series (Signed.pos 7) (codes "t") (some 1)
      none (target ∷ []) none
