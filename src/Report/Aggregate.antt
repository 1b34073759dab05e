-- ===== src/Report/Aggregate.antt =====
-- The aggregate that `reduce_target_outcomes` computes is the one that `try_new` expects.
use asrsub.Prelude.{
  ℕ, ◌-◌, ◌≤◌, ◌<◌, ◌≡◌, ◌≢◌, refl, ap, ◌∙◌, Bool, true, false, ◌&&◌, List, [], ◌∷◌, Option, none,
  ltb, ◌==◌, is_nil, is_some, length, arith, Bool-cases, inl, inr,
}
use asrsub.Text.{Text}
use asrsub.Report.{
  Bytes, Signed, EpisodeKind, ItemFailure, AggregateDisposition, ReportConstructionError, Result,
  Built, and_then, TargetRunResult, bound_targets, EpisodeRunReport, count_completed,
  expected_aggregate, sort_by, insert_by, has_twins, target_lt,
}
use asrsub.Report.Disposition.{
  IsAggregate, outcome_aggregate-expected, outcome_aggregate-IsAggregate,
}
use asrsub.Report.Codec.{encode_report}
use asrsub.Report.Reduce.{
  same_aggregate, with_id, outcome_aggregate, new_report, reduce_target_outcomes,
}

same_aggregate_refl : (a : AggregateDisposition) → same_aggregate a a ≡ true
same_aggregate_refl AggregateDisposition.complete = refl
same_aggregate_refl AggregateDisposition.complete_with_warning = refl
same_aggregate_refl AggregateDisposition.partial = refl
same_aggregate_refl AggregateDisposition.failed = refl

is_nil-insert_by :
    {A : Type 0} (lt : A → A → Bool) (a : A) (xs : List A) → is_nil (insert_by lt a xs) ≡ false
unfolding insert_by
is_nil-insert_by lt a [] = refl
is_nil-insert_by lt a (b ∷ xs) = elim (Bool-cases (lt b a)) [
  | inl h ↦ rw (h, insert_by) refl
  | inr h ↦ rw (h, insert_by) refl
]

is_nil-sort_by : {A : Type 0} (lt : A → A → Bool) (xs : List A) → is_nil (sort_by lt xs) ≡ is_nil xs
unfolding sort_by
is_nil-sort_by lt [] = refl
is_nil-sort_by lt (a ∷ xs) = is_nil-insert_by lt a (sort_by lt xs)

length-pos_of_is_nil : {A : Type 0} (xs : List A) → is_nil xs ≡ false → 0 < length xs
length-pos_of_is_nil [] h = absurd cc
length-pos_of_is_nil (x ∷ xs) h = omega arith

counts-clash : (n k : ℕ) (b : Bool) → 0 < n → ((n - k == 0) && b && (k == 0)) ≡ false
counts-clash n k true h = ground arith
counts-clash n k false h = ground arith

-- What the bound on targets gives: another error, or a list that is not empty.
abbrev IsBounded : Built (List TargetRunResult) → Type 0
IsBounded (Result.ok ts) = is_nil ts ≡ false
IsBounded (Result.err e) = e ≢ ReportConstructionError.invalid_status_combination

bound_targets-IsBounded : (targets : List TargetRunResult) → IsBounded (bound_targets targets)
unfolding bound_targets
bound_targets-IsBounded [] = λ e. cc
bound_targets-IsBounded (t ∷ ts) = elim (Bool-cases (ltb 32 (length (t ∷ ts)))) [
  | inl h ↦ rw (h) (λ e. cc)
  | inr h ↦ elim (Bool-cases (has_twins (sort_by target_lt (t ∷ ts)))) [
    | inl k ↦ rw (h, k) (λ e. cc)
    | inr k ↦ rw (h, k) (is_nil-sort_by target_lt (t ∷ ts))
  ]
]

-- What a reduction gives: a report of the bounded targets and of the item's failure whose aggregate is
-- that of them and whose bytes without the id are at most 16 KiB, or an error that is not about the
-- aggregate.
abbrev pub IsReduced : List TargetRunResult → Option ItemFailure → Built EpisodeRunReport → Type 0
IsReduced targets item_failure (Result.ok r) =
    (bound_targets targets ≡ Result.ok r.targets)
    × (r.item_failure ≡ item_failure)
    × IsAggregate r.targets item_failure r.aggregate
    × (length (encode_report (with_id r none)) ≤ 16_384)
IsReduced targets item_failure (Result.err e) =
    e ≢ ReportConstructionError.invalid_status_combination

le_of_ltb : (n : ℕ) → ltb 16_384 n ≡ false → n ≤ 16_384
le_of_ltb n h = ground arith

module _ (sha256 : Bytes → Bytes) where
  new_report-IsReduced :
      (r : EpisodeRunReport)
      → is_nil r.targets ≡ false
      → r.aggregate ≡ expected_aggregate r.targets r.item_failure
      → (targets : List TargetRunResult) → bound_targets targets ≡ Result.ok r.targets
      → IsAggregate r.targets r.item_failure r.aggregate
      → IsReduced targets r.item_failure (new_report sha256 r)
  unfolding new_report
  new_report-IsReduced r some_target agrees targets bounded_to says =
      elim (Bool-cases (ltb 16_384 (length (encode_report (with_id r none))))) [
        | inl h ↦ rw (same, clash, h) (λ e. cc)
        | inr h ↦
            rw (same, clash, h)
              (bounded_to, refl, says, le_of_ltb (length (encode_report (with_id r none))) h)
      ]
    where
      same : same_aggregate (expected_aggregate r.targets r.item_failure) r.aggregate ≡ true
      same =
          ap (same_aggregate (expected_aggregate r.targets r.item_failure)) agrees
          ∙ same_aggregate_refl (expected_aggregate r.targets r.item_failure)

      clash :
          ((length r.targets - count_completed r.targets == 0)
            && is_some r.item_failure
            && (count_completed r.targets == 0))
          ≡ false
      clash =
          counts-clash (length r.targets) (count_completed r.targets) (is_some r.item_failure)
            (length-pos_of_is_nil r.targets some_target)

  -- Whatever the outcomes of the targets, the reduction never fails on its own aggregate: it refuses the
  -- targets or the size, or gives a report of the bounded targets and the item's failure whose bytes
  -- without the id are at most 16 KiB. Its aggregate is complete only where all targets are completed
  -- without a warning and the item did not fail; with a warning only where all are completed, one with a
  -- warning, and the item did not fail; partial only where one is completed and one is not or the item
  -- failed; and failed only where none is completed.
  pub reduce_target_outcomes-IsReduced :
      (kind : EpisodeKind) (episode_id : Signed) (title : Text) (season episode : Option ℕ)
      (targets : List TargetRunResult) (item_failure : Option ItemFailure)
      → IsReduced targets item_failure
          (reduce_target_outcomes sha256 kind episode_id title season episode targets item_failure)
  unfolding reduce_target_outcomes
  reduce_target_outcomes-IsReduced kind episode_id title season episode targets item_failure =
      built (bound_targets targets) refl (bound_targets-IsBounded targets)
    where
      built :
          (b : Built (List TargetRunResult))
          → bound_targets targets ≡ b
          → IsBounded b
          → IsReduced targets item_failure (
              and_then b (λ bounded. new_report sha256 (record {
                kind = kind;
                episode_id = episode_id;
                title = title;
                season = season;
                episode = episode;
                targets = bounded;
                item_failure = item_failure;
                aggregate = outcome_aggregate bounded item_failure;
                pipeline_commit_id = none;
              })))
      built (Result.ok bounded) e h =
          new_report-IsReduced _ h (outcome_aggregate-expected bounded item_failure) targets e
            (outcome_aggregate-IsAggregate bounded item_failure)
      built (Result.err _) e h = h
