-- ===== src/Lane/Operations.antt =====
-- The operations of `StateLaneHandle`.
use asrsub.Prelude.{
  ℕ, zero, suc, ◌/◌, ◌%◌, Bool, true, false, not, ◌||◌, List, [], ◌∷◌, ◌++◌, Option, none, some,
  ltb, ◌==◌, if◌then◌else◌, is_nil, is_some, checked_add,
}
use asrsub.Text.{codes, text_eq}
use asrsub.Report.{Bytes, EpisodeRunReport, Result}
use asrsub.Report.Bounded.{from_reports}
use asrsub.Lane.Clock.{attempt_window_ns, next_backoff, next_deadline}
use asrsub.Lane.Queueing.{admit_all, not_captured, ids, promote}
use asrsub.Lane.State.{
  NotificationStateError, ClockSample, Reservation, Queues, Attempts, LaneState, Lane, IoOutcome,
  Answer, fail, map_answer, with_state, with_queues, with_delivery, with_disabled, with_fence,
  ensure_open, validate_clock, StateCommit, state_hash, commit, commit_of,
}

-- `next_attempt_epoch_ns.is_some_and(|deadline| now < deadline)`
abbrev pub too_early : Option ℕ → ℕ → Bool
too_early none now = false
too_early (some deadline) now = ltb now deadline

pub record DeliveryView : Type 0 where
  pub state_generation : ℕ
  pub reports : List EpisodeRunReport

unfoldable pub inspect_due : ClockSample → Lane → Answer (Option DeliveryView)
inspect_due now l =
    if l.state.is_fenced
    then fail NotificationStateError.fenced l
    else if l.state.is_disabled
    then fail NotificationStateError.disabled l
    else if not (validate_clock now)
    then fail NotificationStateError.clock l
    else if is_some l.state.reservation || is_nil l.state.queues.reports
    then (Result.ok none, l)
    else if too_early l.state.attempts.next_attempt_epoch_ns now.epoch_ns
    then (Result.ok none, l)
    else (
      Result.ok (
          some (record {
            state_generation = l.state.generation;
            reports = (from_reports l.state.queues.reports).0;
          })),
      l,
    )

-- `u64::to_le_bytes`, with the number of bytes
abbrev pub le_bytes : ℕ → ℕ → Bytes
le_bytes zero n = []
le_bytes (suc k) n = n % 256 ∷ le_bytes k (n / 256)

pub data SafeDeliveryError : Type 0 where
  transport : SafeDeliveryError
  timeout : SafeDeliveryError
  connection_reset : SafeDeliveryError
  retryable_response : SafeDeliveryError
  permanent_response : SafeDeliveryError
  clock : SafeDeliveryError
  write : SafeDeliveryError
  corrupt : SafeDeliveryError
  disabled : SafeDeliveryError

abbrev pub disables : SafeDeliveryError → Bool
disables SafeDeliveryError.permanent_response = true
disables SafeDeliveryError.disabled = true
disables SafeDeliveryError.corrupt = true
disables _ = false

pub record Delivery : Type 0 where
  pub committed : StateCommit
  pub reservation_id : Bytes
  pub content : Bytes

module _ (sha256 : Bytes → Bytes) where
  unfoldable pub payload_sha256 : Bytes → Bytes
  payload_sha256 payload = sha256 (codes "asrsub-payload-v1" ++ 0 ∷ payload)

  unfoldable pub after_admission :
      IoOutcome → Lane → Option NotificationStateError × Queues → Answer StateCommit
  after_admission outcome l (some e, q) = fail e (with_state (with_queues q l.state) l)
  after_admission outcome l (none, q) = commit sha256 outcome (with_state (with_queues q l.state) l)

  unfoldable pub enqueue :
      IoOutcome → List EpisodeRunReport → ClockSample → Lane → Answer StateCommit
  enqueue outcome reports now l =
      if not (ensure_open l.state)
      then fail NotificationStateError.fenced l
      else if not (validate_clock now)
      then fail NotificationStateError.clock l
      else if is_nil reports
      then (Result.ok (commit_of sha256 l.state), l)
      else after_admission outcome l (admit_all reports l.state.queues)

  abbrev pub reservation_id : ℕ → Bytes → Bytes
  reservation_id generation payload =
      sha256 (codes "asrsub-reservation-v1" ++ 0 ∷ le_bytes 8 generation ++ payload)

  unfoldable pub reserve_at : IoOutcome → ClockSample → Bytes → ℕ → Lane → Answer Delivery
  reserve_at outcome now payload deadline l =
      let id = reservation_id l.state.generation payload in
      let r : Reservation = record {
        id = id;
        payload = payload;
        captured = ids l.state.queues.reports;
        attempt_started_epoch_ns = now.epoch_ns;
        attempt_started_monotonic_ns = now.monotonic_ns;
        reserved_next_attempt_epoch_ns = deadline;
      } in
      let attempts : Attempts = record {
        last_attempt_epoch_ns = some now.epoch_ns;
        next_attempt_epoch_ns = some deadline;
        backoff_seconds = l.state.attempts.backoff_seconds;
      } in
      map_answer
        (λ c. record { committed = c; reservation_id = id; content = payload_sha256 payload })
        (commit sha256 outcome (with_state (with_delivery (some r) attempts l.state) l))

  -- `reserve_rendered`, for a view of the given generation.
  unfoldable pub reserve_rendered : IoOutcome → ClockSample → ℕ → Bytes → Lane → Answer Delivery
  reserve_rendered outcome now view_generation payload l =
      if not (ensure_open l.state)
      then fail NotificationStateError.fenced l
      else if not (validate_clock now)
      then fail NotificationStateError.clock l
      else if is_some l.state.reservation || not (view_generation == l.state.generation)
      then fail NotificationStateError.stale_view l
      else if too_early l.state.attempts.next_attempt_epoch_ns now.epoch_ns
      then fail NotificationStateError.clock l
      else elim (checked_add now.epoch_ns attempt_window_ns) [
        | none ↦ fail NotificationStateError.clock l
        | some deadline ↦ reserve_at outcome now payload deadline l
      ]

  abbrev pub restarted : ClockSample → ℕ → Reservation → Reservation
  restarted now deadline r = record {
    id = r.id;
    payload = r.payload;
    captured = r.captured;
    attempt_started_epoch_ns = now.epoch_ns;
    attempt_started_monotonic_ns = now.monotonic_ns;
    reserved_next_attempt_epoch_ns = deadline;
  }

  -- On an overflow the times of the attempt are written all the same.
  unfoldable pub resume_at : IoOutcome → ClockSample → Reservation → Lane → Answer (Option Delivery)
  resume_at outcome now r l = elim (checked_add now.epoch_ns attempt_window_ns) [
    | none ↦ fail NotificationStateError.clock (
        with_state
          (with_delivery (some (restarted now r.reserved_next_attempt_epoch_ns r)) l.state.attempts
            l.state)
          l)
    | some deadline ↦
        let attempts : Attempts = record {
          last_attempt_epoch_ns = some now.epoch_ns;
          next_attempt_epoch_ns = some deadline;
          backoff_seconds = l.state.attempts.backoff_seconds;
        } in
        map_answer
          (λ c. some (record { committed = c; reservation_id = r.id; content = r.payload }))
          (commit sha256 outcome
            (with_state (with_delivery (some (restarted now deadline r)) attempts l.state) l))
  ]

  unfoldable pub resume_reservation : IoOutcome → ClockSample → Lane → Answer (Option Delivery)
  resume_reservation outcome now l =
      if not (ensure_open l.state)
      then fail NotificationStateError.fenced l
      else if not (validate_clock now)
      then fail NotificationStateError.clock l
      else if too_early l.state.attempts.next_attempt_epoch_ns now.epoch_ns
      then (Result.ok none, l)
      else elim l.state.reservation [
        | none ↦ (Result.ok none, l)
        | some r ↦ resume_at outcome now r l
      ]

  -- The state once the reservation is acknowledged.
  unfoldable pub settled : Reservation → LaneState → LaneState
  settled r s =
      with_queues
        (record { reports = not_captured r.captured s.queues.reports; blocked = s.queues.blocked })
        (with_delivery none
          (record {
            last_attempt_epoch_ns = s.attempts.last_attempt_epoch_ns;
            next_attempt_epoch_ns = s.attempts.next_attempt_epoch_ns;
            backoff_seconds = 0;
          })
          s)

  unfoldable pub acknowledge : IoOutcome → Bytes → Bytes → Lane → Answer StateCommit
  acknowledge outcome reservation_id payload_hash l =
      if not (ensure_open l.state)
      then fail NotificationStateError.fenced l
      else elim l.state.reservation [
        | none ↦ fail NotificationStateError.invalid_input l
        | some r ↦
            if not (text_eq r.id reservation_id)
              || not (text_eq (payload_sha256 r.payload) payload_hash)
            then fail NotificationStateError.invalid_input l
            else commit sha256 outcome (with_state (settled r l.state) l)
      ]

  abbrev pub retry_later : IoOutcome → ClockSample → ℕ → ℕ → Lane → Answer StateCommit
  retry_later outcome now backoff deadline l = commit sha256 outcome (
      with_state
        (with_delivery none
          (record {
            last_attempt_epoch_ns = some now.epoch_ns;
            next_attempt_epoch_ns = some deadline;
            backoff_seconds = backoff;
          })
          l.state)
        l)

  -- The branch of a failure that may pass, the reservation already dropped.
  unfoldable pub schedule : IoOutcome → ClockSample → Option ℕ → Lane → Answer StateCommit
  schedule outcome now retry_after l = elim (next_backoff l.state.attempts.backoff_seconds) [
    | none ↦ fail NotificationStateError.clock l
    | some backoff ↦ elim (next_deadline now.epoch_ns now.epoch_ns backoff retry_after) [
      | none ↦ fail NotificationStateError.clock l
      | some deadline ↦ retry_later outcome now backoff deadline l
    ]
  ]

  abbrev pub drop_reservation : LaneState → LaneState
  drop_reservation s = with_delivery none s.attempts s

  abbrev pub holds : Bytes → Option Reservation → Bool
  holds id none = false
  holds id (some r) = text_eq r.id id

  unfoldable pub record_attempt_failure :
      IoOutcome → Bytes → SafeDeliveryError → ClockSample → Option ℕ → Lane → Answer StateCommit
  record_attempt_failure outcome reservation_id class now retry_after l =
      if not (ensure_open l.state)
      then fail NotificationStateError.fenced l
      else if not (holds reservation_id l.state.reservation)
      then fail NotificationStateError.invalid_input l
      else if not (validate_clock now)
      then fail NotificationStateError.clock l
      else if disables class
      then commit sha256 outcome (with_state (with_disabled true (drop_reservation l.state)) l)
      else schedule outcome now retry_after (with_state (drop_reservation l.state) l)

  unfoldable pub after_promotion : IoOutcome → Lane → Queues × ℕ → Answer (StateCommit × ℕ)
  after_promotion outcome l (q, promoted) =
      let l' = with_state (with_queues q l.state) l in
      if ltb 0 promoted
      then map_answer (λ c. (c, promoted)) (commit sha256 outcome l')
      else (Result.ok (commit_of sha256 l'.state, 0), l')

  unfoldable pub retry_blocked : IoOutcome → ClockSample → Lane → Answer (StateCommit × ℕ)
  retry_blocked outcome now l =
      if not (ensure_open l.state)
      then fail NotificationStateError.fenced l
      else if not (validate_clock now)
      then fail NotificationStateError.clock l
      else after_promotion outcome l (promote l.state.queues.reports l.state.queues.blocked 0)

  unfoldable pub reset_delivery : IoOutcome → Bytes → Lane → Answer StateCommit
  reset_delivery outcome expected l =
      if not (text_eq (state_hash sha256 l.state) expected)
      then fail NotificationStateError.invalid_input l
      else commit sha256 outcome (with_state (with_disabled false l.state) l)

  -- The witness holds the operation's number, the generation and the hash.
  unfoldable pub fence : Lane → Answer (ℕ × StateCommit)
  fence l = elim (checked_add l.state.operation_id 1) [
    | none ↦
        fail NotificationStateError.capacity
          (with_state (with_fence l.state.operation_id l.state) l)
    | some op ↦
        let s = with_fence op l.state in (Result.ok (op, commit_of sha256 s), with_state s l)
  ]
