-- ===== src/Lane/Queueing.antt =====
-- What the operations do to the queues: the loops of `enqueue`, `acknowledge` and `retry_blocked`.
use asrsub.Prelude.{
  ℕ, ◌+◌, Bool, true, false, not, List, [], ◌∷◌, ◌++◌, Option, none, some, ltb, leb, if◌then◌else◌,
  length, is_some, any,
}
use asrsub.Text.{Text, text_eq}
use asrsub.Report.{EpisodeRunReport, Result}
use asrsub.Lane.State.{NotificationStateError, Queues}

abbrev pub opt_eq : Option Text → Option Text → Bool
opt_eq none none = true
opt_eq none (some b) = false
opt_eq (some a) none = false
opt_eq (some a) (some b) = text_eq a b

abbrev pub has_id : Option Text → List EpisodeRunReport → Bool
has_id id reports = any (λ old. opt_eq old.pipeline_commit_id id) reports

-- One report of `enqueue`: known, queued, held back, or refused.
unfoldable pub admit : EpisodeRunReport → Queues → Result NotificationStateError Queues
admit r q =
    if not (is_some r.pipeline_commit_id)
    then Result.err NotificationStateError.invalid_input
    else if has_id r.pipeline_commit_id q.reports
    then Result.ok q
    else if ltb (length q.reports) 128
    then Result.ok (record { reports = q.reports ++ r ∷ []; blocked = q.blocked })
    else if leb 16 (length q.blocked)
    then Result.err NotificationStateError.capacity
    else Result.ok (record { reports = q.reports; blocked = q.blocked ++ r ∷ [] })

-- The loop; what was admitted before an error stays.
unfoldable pub admit_all : List EpisodeRunReport → Queues → Option NotificationStateError × Queues
admit_all [] q = (none, q)
admit_all (r ∷ rs) q = elim (admit r q) [
  | Result.err e ↦ (some e, q)
  | Result.ok q' ↦ admit_all rs q'
]

-- The reports that a reservation has not captured.
abbrev pub not_captured : List Text → List EpisodeRunReport → List EpisodeRunReport
not_captured captured [] = []
not_captured captured (r ∷ rs) = elim (any (λ id. opt_eq r.pipeline_commit_id (some id)) captured) [
  | true ↦ not_captured captured rs
  | false ↦ r ∷ not_captured captured rs
]

-- `filter_map` of the ids
abbrev pub ids : List EpisodeRunReport → List Text
ids [] = []
ids (r ∷ rs) = elim r.pipeline_commit_id [ none ↦ ids rs | some id ↦ id ∷ ids rs ]

-- The loop of `retry_blocked`, with the reports, the blocked and the count. At most 128 reports are
-- promoted, so the checked count cannot fail.
unfoldable pub promote : List EpisodeRunReport → List EpisodeRunReport → ℕ → Queues × ℕ
promote reports [] promoted = (record { reports = reports; blocked = [] }, promoted)
promote reports (b ∷ blocked) promoted = elim (ltb (length reports) 128) [
  | false ↦ (record { reports = reports; blocked = b ∷ blocked }, promoted)
  | true ↦ elim (has_id b.pipeline_commit_id reports) [
    | true ↦ promote reports blocked promoted
    | false ↦ promote (reports ++ b ∷ []) blocked (promoted + 1)
  ]
]
