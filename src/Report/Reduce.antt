-- ===== src/Report/Reduce.antt =====
-- `EpisodeRunReport::try_new` and `reduce_target_outcomes`.
use asrsub.Prelude.{
  ℕ, Bool, true, false, not, ◌&&◌, ◌||◌, List, Option, none, some, ltb, ◌==◌, if◌then◌else◌, any,
  is_some, length, ◌-◌,
}
use asrsub.Text.{Text}
use asrsub.Report.{
  Bytes, Signed, EpisodeKind, ItemFailure, AggregateDisposition, ReportConstructionError, Result,
  Built, and_then, TargetRunResult, bound_targets, EpisodeRunReport, count_completed,
  expected_aggregate, has_warning,
}
use asrsub.Report.Codec.{encode_report, commit_id}

abbrev pub same_aggregate : AggregateDisposition → AggregateDisposition → Bool
same_aggregate AggregateDisposition.complete AggregateDisposition.complete = true
same_aggregate AggregateDisposition.complete_with_warning
      AggregateDisposition.complete_with_warning =
    true
same_aggregate AggregateDisposition.partial AggregateDisposition.partial = true
same_aggregate AggregateDisposition.failed AggregateDisposition.failed = true
same_aggregate _ _ = false

abbrev pub with_id : EpisodeRunReport → Option Text → EpisodeRunReport
with_id r id = record r { pipeline_commit_id = id }

-- The aggregate as `reduce_target_outcomes` computes it, apart from `try_new`
unfoldable pub outcome_aggregate : List TargetRunResult → Option ItemFailure → AggregateDisposition
outcome_aggregate targets item_failure =
    let completed = count_completed targets in
    let warning = any (λ t. has_warning t.status) targets in
    if (completed == length targets) && not (is_some item_failure)
    then if warning
      then AggregateDisposition.complete_with_warning
      else AggregateDisposition.complete
    else if ltb 0 completed
    then AggregateDisposition.partial
    else AggregateDisposition.failed

module _ (sha256 : Bytes → Bytes) where
  -- `EpisodeRunReport::try_new`; the argument is the report without its id.
  unfoldable pub new_report : EpisodeRunReport → Built EpisodeRunReport
  new_report r =
      let completed = count_completed r.targets in
      let failed = length r.targets - completed in
      let bytes = encode_report (with_id r none) in
      if not (same_aggregate (expected_aggregate r.targets r.item_failure) r.aggregate)
        || ((failed == 0) && is_some r.item_failure && (completed == 0))
      then Result.err ReportConstructionError.invalid_status_combination
      else if ltb 16_384 (length bytes)
      then Result.err ReportConstructionError.counter_overflow
      else Result.ok (with_id r (some (commit_id sha256 bytes)))

  unfoldable pub reduce_target_outcomes :
      EpisodeKind
      → Signed
      → Text
      → Option ℕ
      → Option ℕ
      → List TargetRunResult
      → Option ItemFailure
      → Built EpisodeRunReport
  reduce_target_outcomes kind episode_id title season episode targets item_failure =
      and_then (bound_targets targets) (λ bounded. new_report (record {
        kind = kind;
        episode_id = episode_id;
        title = title;
        season = season;
        episode = episode;
        targets = bounded;
        item_failure = item_failure;
        aggregate = outcome_aggregate bounded item_failure;
        pipeline_commit_id = none;
      }))
