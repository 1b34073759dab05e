-- ===== src/Report.antt =====
-- src/discord_types.rs and src/pipeline_reports.rs: the report of an episode's run, its
-- constructors and the reduction of target outcomes. Models of a generation method are kept out:
-- they are metadata for the notification that the canonical bytes leave out.
pub mod Codec
pub mod Reduce
pub mod Bounded
pub mod Disposition
pub mod Aggregate
use asrsub.Prelude.{
  ℕ, zero, suc, ◌+◌, ◌-◌, Bool, true, false, not, ◌&&◌, ◌||◌, List, [], ◌∷◌, ◌++◌, Option, none,
  some, ltb, leb, ◌==◌, if◌then◌else◌, is_nil, is_some, length, all, any, map,
}
use asrsub.Text.{Text, text_lt, text_eq}

abbrev pub Bytes : Type 0
Bytes = List ℕ

pub data Signed : Type 0 where
  pos : ℕ → Signed
  negsuc : ℕ → Signed

pub data EpisodeKind : Type 0 where
  series : EpisodeKind
  movie : EpisodeKind

pub data ItemFailure : Type 0 where
  source : ItemFailure
  storage : ItemFailure
  unknown : ItemFailure

pub data WarningClass : Type 0 where
  upload : WarningClass
  unknown : WarningClass

pub data FailureClass : Type 0 where
  source : FailureClass
  transcription : FailureClass
  translation : FailureClass
  storage : FailureClass
  unknown : FailureClass

-- `MissingLanguage` has one case.
pub data TargetStatus : Type 0 where
  completed : Option WarningClass → TargetStatus
  failed : FailureClass → TargetStatus
  missing_language : TargetStatus

pub data AggregateDisposition : Type 0 where
  complete : AggregateDisposition
  complete_with_warning : AggregateDisposition
  partial : AggregateDisposition
  failed : AggregateDisposition

pub data ReportConstructionError : Type 0 where
  too_many_targets : ReportConstructionError
  invalid_language : ReportConstructionError
  invalid_artifact_digest : ReportConstructionError
  invalid_status_combination : ReportConstructionError
  invalid_title : ReportConstructionError
  counter_overflow : ReportConstructionError

pub data Result (E A : Type 0) : Type 0 where
  ok : A → Result E A
  err : E → Result E A

abbrev pub and_then : {E A B : Type 0} → Result E A → (A → Result E B) → Result E B
and_then (ok a) f = f a
and_then (err e) f = err e

abbrev pub Built : Type 0 → Type 0
Built = Result ReportConstructionError

abbrev pub lower : ℕ → ℕ
lower c = if leb b'A' c && leb c b'Z' then c + 32 else c

abbrev is_label : ℕ → Bool
is_label c = (leb b'a' c && leb c b'z') || (leb b'0' c && leb c b'9')

-- `TargetLanguage::parse`. The length in bytes counts only where every char is one byte: any other
-- char is refused with the same error.
unfoldable pub parse_language : Text → Built Text
parse_language raw =
    let value = map lower raw in
    if is_nil value || ltb 32 (length value) || not (all is_label value)
    then Result.err ReportConstructionError.invalid_language
    else Result.ok value

pub record TargetRunResult : Type 0 where
  pub language : Text
  pub status : TargetStatus
  pub artifact_sha256 : Option Bytes

abbrev pub is_completed : TargetStatus → Bool
is_completed (TargetStatus.completed w) = true
is_completed (TargetStatus.failed c) = false
is_completed TargetStatus.missing_language = false

abbrev pub has_warning : TargetStatus → Bool
has_warning (TargetStatus.completed w) = is_some w
has_warning (TargetStatus.failed c) = false
has_warning TargetStatus.missing_language = false

abbrev same : Bool → Bool → Bool
same true b = b
same false b = not b

-- `TargetRunResult::try_new`
unfoldable pub new_target : Text → TargetStatus → Option Bytes → Built TargetRunResult
new_target language status artifact_sha256 =
    if same (is_completed status) (is_some artifact_sha256)
    then Result.ok
        (record { language = language; status = status; artifact_sha256 = artifact_sha256 })
    else Result.err ReportConstructionError.invalid_artifact_digest

abbrev pub severity : TargetRunResult → ℕ
severity t = if is_completed t.status then (if has_warning t.status then 1 else 2) else 0

abbrev pub target_lt : TargetRunResult → TargetRunResult → Bool
target_lt a b =
    ltb (severity a) (severity b) || ((severity a == severity b) && text_lt a.language b.language)

-- A stable sort: an element goes before the first one that is greater.
unfoldable pub insert_by : {A : Type 0} → (A → A → Bool) → A → List A → List A
insert_by lt a [] = a ∷ []
insert_by lt a (b ∷ bs) = elim (lt b a) [ true ↦ b ∷ insert_by lt a bs | false ↦ a ∷ b ∷ bs ]

unfoldable pub sort_by : {A : Type 0} → (A → A → Bool) → List A → List A
sort_by lt [] = []
sort_by lt (a ∷ rest) = insert_by lt a (sort_by lt rest)

-- `windows(2).any(...)`: neighbours of the same language
abbrev pub has_twins : List TargetRunResult → Bool
has_twins [] = false
has_twins (a ∷ []) = false
has_twins (a ∷ b ∷ ts) = text_eq a.language b.language || has_twins (b ∷ ts)

-- `BoundedTargets::try_from`
unfoldable pub bound_targets : List TargetRunResult → Built (List TargetRunResult)
bound_targets items =
    if is_nil items || ltb 32 (length items)
    then Result.err ReportConstructionError.too_many_targets
    else if has_twins (sort_by target_lt items)
    then Result.err ReportConstructionError.invalid_language
    else Result.ok (sort_by target_lt items)

pub record EpisodeRunReport : Type 0 where
  pub kind : EpisodeKind
  pub episode_id : Signed
  pub title : Text
  pub season : Option ℕ
  pub episode : Option ℕ
  pub targets : List TargetRunResult
  pub item_failure : Option ItemFailure
  pub aggregate : AggregateDisposition
  pub pipeline_commit_id : Option Text

abbrev pub count_completed : List TargetRunResult → ℕ
count_completed [] = 0
count_completed (t ∷ ts) =
    if is_completed t.status then suc (count_completed ts) else count_completed ts

-- The aggregate that `try_new` expects
unfoldable pub expected_aggregate : List TargetRunResult → Option ItemFailure → AggregateDisposition
expected_aggregate targets item_failure =
    if (count_completed targets == length targets) && not (is_some item_failure)
    then if any (λ t. has_warning t.status) targets
      then AggregateDisposition.complete_with_warning
      else AggregateDisposition.complete
    else if ltb 0 (count_completed targets)
    then AggregateDisposition.partial
    else AggregateDisposition.failed
