-- ===== src/Tests/LaneTests.antt =====
-- Runs of the notification lane, with a hash that keeps the bytes as they are.
use asrsub.Prelude.{
  ℕ, ◌+◌, ◌*◌, ◌≤◌, ◌≡◌, refl, ap, subst, length, if◌then◌else◌, true, false, List, [], ◌∷◌, some,
  none, arith, inr,
}
use asrsub.Text.{Text, codes, text_eq}
use asrsub.Report.{
  Bytes, Signed, EpisodeKind, TargetStatus, FailureClass, AggregateDisposition, EpisodeRunReport,
  Result,
}
use asrsub.Lane.Clock.{attempt_window_ns, next_backoff, next_deadline}
use asrsub.Lane.Cadence.{next_backoff-bounds, next_deadline-bounds}
use asrsub.Text.Equality.{text_eq_refl}
use asrsub.Lane.State.{
  persist, state_hash, NotificationStateError, ClockSample, LaneState, Lane, IoOutcome, Reservation,
  with_queues,
}
use asrsub.Lane.Operations.{fence, settled}
use asrsub.Lane.Queueing.{admit_all}
use asrsub.Lane.Delivery.{settled-late}
use asrsub.Lane.Loading.{Parsed, parse_state_bytes, parse_state, restore}
use asrsub.Lane.Decode.{decode_reports}
use asrsub.Json.{Json}
use asrsub.Tests.LedgerTests.{text_values}
use asrsub.Lane.Request.{Request, run}
use asrsub.Lane.Fence.{run-fenced}
use asrsub.Lane.Queue.{IsQueues, Distinct}
use asrsub.Lane.Reachable.{run-IsQueues}

abbrev plain : Bytes → Bytes
plain b = b

abbrev now : ClockSample
now = record { boot_id = codes "b"; epoch_ns = 5; monotonic_ns = 5; synchronized = true }

abbrev report : Text → EpisodeRunReport
report id = record {
  kind = EpisodeKind.series;
  episode_id = Signed.pos 7;
  title = codes "t";
  season = some 1;
  episode = none;
  targets =
      record {
        language = codes "en";
        status = TargetStatus.failed FailureClass.source;
        artifact_sha256 = none;
      }
      ∷ [];
  item_failure = none;
  aggregate = AggregateDisposition.failed;
  pipeline_commit_id = some id;
}

-- The lane that `open` makes where there is no state file.
abbrev empty_lane : Lane
empty_lane = record {
  state = record {
    generation = 0;
    queues = record { reports = []; blocked = [] };
    reservation = none;
    is_disabled = false;
    operation_id = 0;
    is_fenced = false;
    attempts = record {
      last_attempt_epoch_ns = none;
      next_attempt_epoch_ns = none;
      backoff_seconds = 0;
    };
  };
  file = none;
}

abbrev calls : List Request
calls =
    Request.enqueue IoOutcome.saved
      (report (codes "a") ∷ report (codes "b") ∷ report (codes "a") ∷ []) now
    ∷ Request.retry_blocked IoOutcome.lost now
    ∷ []

run-fenced_example :
    run text_values plain (λ t. true) calls (fence plain empty_lane).1 ≡ (fence plain empty_lane).1
run-fenced_example = run-fenced text_values plain (λ t. true) calls empty_lane refl

-- Every text is read as a state without reports.
abbrev empty_states : Json
empty_states = record text_values {
  get = λ key v.
      if text_eq key (codes "schema")
      then some (codes "state-v1")
      else if text_eq key (codes "reports")
      then some []
      else none;
  as_array = λ v. some [];
}

abbrev one_report : LaneState
one_report =
    with_queues (record { reports = report (codes "a") ∷ []; blocked = [] }) empty_lane.state

abbrev queued_lane : Lane
queued_lane = record { state = one_report; file = none }

-- The restore is taken, and empties the queue.
restored :
    (restore empty_states plain
      (λ t. true)
      IoOutcome.saved
      []
      (state_hash plain queued_lane.state)
      0
      queued_lane).1.state.queues.reports
    ≡ []
unfolding restore parse_state_bytes parse_state decode_reports persist
restored = rw (text_eq_refl (state_hash plain queued_lane.state)) refl

abbrev calls_and_restore : List Request
calls_and_restore =
    Request.restore IoOutcome.saved [] (state_hash plain queued_lane.state) 0 ∷ calls

queued-IsQueues : IsQueues queued_lane.state.queues
queued-IsQueues = record { bounded = omega arith; held = omega arith; distinct = (refl, tt) }

reports_of : Result NotificationStateError Parsed → List EpisodeRunReport
reports_of (Result.ok p) = p.reports
reports_of (Result.err e) = []

no_reports :
    (p : Parsed)
    → parse_state_bytes empty_states plain (λ t. true) [] ≡ Result.ok p
    → (length p.reports ≤ 128) × Distinct p.reports
unfolding parse_state_bytes parse_state decode_reports reports_of
no_reports p e = subst (λ rs. (length rs ≤ 128) × Distinct rs) (ap reports_of e) (omega arith, tt)

run-IsQueues_example :
    IsQueues (run empty_states plain (λ t. true) calls_and_restore queued_lane).state.queues
run-IsQueues_example =
    run-IsQueues empty_states plain (λ t. true) calls_and_restore queued_lane
      (no_reports, (tt, (tt, tt))) queued-IsQueues

next_backoff-bounds_example : next_backoff 900 ≡ some 1800
next_backoff-bounds_example = next_backoff-bounds 900 (inr (omega arith, omega arith))

next_deadline-bounds_example :
    (d : ℕ) × (next_deadline 5 5 900 none ≡ some d)
    × (5 + attempt_window_ns ≤ d)
    × (5 + 900 * 1_000_000_000 ≤ d)
    × (5 + 0 * 1_000_000_000 ≤ d)
next_deadline-bounds_example =
    next_deadline-bounds 5 5 900 none (omega arith) (omega arith) (omega arith)

abbrev reserved : Reservation
reserved = record {
  id = [];
  payload = codes "p";
  captured = codes "a" ∷ [];
  attempt_started_epoch_ns = 5;
  attempt_started_monotonic_ns = 5;
  reserved_next_attempt_epoch_ns = 900_000_000_005;
}

abbrev late : List EpisodeRunReport
late = report (codes "a") ∷ report (codes "b") ∷ []

settled-late_example :
    (new : List EpisodeRunReport) × ((admit_all late one_report.queues).1.reports
      ≡ report (codes "a") ∷ new)
    × ((settled plain reserved
          (with_queues (admit_all late one_report.queues).1 one_report)).queues.reports
        ≡ new)
settled-late_example = settled-late plain one_report reserved late (refl, tt) refl
