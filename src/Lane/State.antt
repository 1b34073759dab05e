-- ===== src/Lane/State.antt =====
-- The lane's state, its canonical bytes, and the writing of the state file.
use asrsub.Prelude.{
  ℕ, Bool, true, false, not, ◌&&◌, List, [], ◌∷◌, ◌++◌, Option, none, some, map, checked_add,
  is_nil,
}
use asrsub.Text.{Text, codes}
use asrsub.Text.Decimal.{to_string}
use asrsub.Report.{Bytes, EpisodeRunReport, Result}
use asrsub.Report.Codec.{hex, encode_string, encode_report, domain_hash, key, commas, opt_num, null}

pub data NotificationStateError : Type 0 where
  missing : NotificationStateError
  corrupt : NotificationStateError
  contradiction : NotificationStateError
  capacity : NotificationStateError
  clock : NotificationStateError
  io : NotificationStateError
  disabled : NotificationStateError
  invalid_input : NotificationStateError
  stale_view : NotificationStateError
  fenced : NotificationStateError

pub record ClockSample : Type 0 where
  pub boot_id : Text
  pub epoch_ns : ℕ
  pub monotonic_ns : ℕ
  pub synchronized : Bool

pub record Reservation : Type 0 where
  pub id : Bytes
  pub payload : Bytes
  pub captured : List Text
  pub attempt_started_epoch_ns : ℕ
  pub attempt_started_monotonic_ns : ℕ
  pub reserved_next_attempt_epoch_ns : ℕ

pub record Queues : Type 0 where
  pub reports : List EpisodeRunReport
  pub blocked : List EpisodeRunReport

pub record Attempts : Type 0 where
  pub last_attempt_epoch_ns : Option ℕ
  pub next_attempt_epoch_ns : Option ℕ
  pub backoff_seconds : ℕ

-- The fields of the source in two groups, the queues and the times of attempts; the paths are
-- fixed and `overflow` is never written.
pub record LaneState : Type 0 where
  pub generation : ℕ
  pub queues : Queues
  pub reservation : Option Reservation
  pub is_disabled : Bool
  pub operation_id : ℕ
  pub is_fenced : Bool
  pub attempts : Attempts

-- The state in memory and the contents of the state file.
pub record Lane : Type 0 where
  pub state : LaneState
  pub file : Option Bytes

-- What the file operations of one call came to: the new file in place, an error before the rename,
-- or an error after it.
pub data IoOutcome : Type 0 where
  saved : IoOutcome
  lost : IoOutcome
  unsynced : IoOutcome

abbrev pub Answer : Type 0 → Type 0
Answer A = Result NotificationStateError A × Lane

abbrev pub fail : {A : Type 0} → NotificationStateError → Lane → Answer A
fail e l = (Result.err e, l)

abbrev pub map_answer : {A B : Type 0} → (A → B) → Answer A → Answer B
map_answer f (Result.ok a, l) = (Result.ok (f a), l)
map_answer f (Result.err e, l) = (Result.err e, l)

abbrev pub with_state : LaneState → Lane → Lane
with_state s l = record { state = s; file = l.file }

abbrev pub with_generation : ℕ → LaneState → LaneState
with_generation g s = record {
  generation = g;
  queues = s.queues;
  reservation = s.reservation;
  is_disabled = s.is_disabled;
  operation_id = s.operation_id;
  is_fenced = s.is_fenced;
  attempts = s.attempts;
}

abbrev pub with_queues : Queues → LaneState → LaneState
with_queues q s = record {
  generation = s.generation;
  queues = q;
  reservation = s.reservation;
  is_disabled = s.is_disabled;
  operation_id = s.operation_id;
  is_fenced = s.is_fenced;
  attempts = s.attempts;
}

abbrev pub with_delivery : Option Reservation → Attempts → LaneState → LaneState
with_delivery r a s = record {
  generation = s.generation;
  queues = s.queues;
  reservation = r;
  is_disabled = s.is_disabled;
  operation_id = s.operation_id;
  is_fenced = s.is_fenced;
  attempts = a;
}

abbrev pub with_disabled : Bool → LaneState → LaneState
with_disabled b s = record {
  generation = s.generation;
  queues = s.queues;
  reservation = s.reservation;
  is_disabled = b;
  operation_id = s.operation_id;
  is_fenced = s.is_fenced;
  attempts = s.attempts;
}

abbrev pub with_fence : ℕ → LaneState → LaneState
with_fence op s = record {
  generation = s.generation;
  queues = s.queues;
  reservation = s.reservation;
  is_disabled = s.is_disabled;
  operation_id = op;
  is_fenced = true;
  attempts = s.attempts;
}

abbrev pub bool_text : Bool → Text
bool_text true = codes "true"
bool_text false = codes "false"

unfoldable pub encode_reservation : Option Reservation → Bytes
encode_reservation none = null
encode_reservation (some r) =
    b'{' ∷ key (codes "id")
    ++ (encode_string (hex r.id)
        ++ (b',' ∷ key (codes "payload")
            ++ (encode_string (hex r.payload)
                ++ (b',' ∷ key (codes "captured")
                    ++ (b'[' ∷ commas (map encode_string r.captured)
                        ++ (b']'
                            ∷ (b',' ∷ key (codes "attempt_started_epoch_ns")
                                ++ (to_string r.attempt_started_epoch_ns
                                    ++ (b',' ∷ key (codes "attempt_started_monotonic_ns")
                                        ++ (to_string r.attempt_started_monotonic_ns
                                            ++ (b',' ∷ key (codes "reserved_next_attempt_epoch_ns")
                                                ++ (to_string r.reserved_next_attempt_epoch_ns
                                                    ++ b'}' ∷ []))))))))))))

unfoldable pub encode_reports : List EpisodeRunReport → Bytes
encode_reports rs = commas (map (λ r. encode_string (hex (encode_report r))) rs)

unfoldable pub canonical_state : LaneState → Bytes
canonical_state s =
    b'{' ∷ key (codes "schema")
    ++ (encode_string (codes "state-v1")
        ++ (b',' ∷ key (codes "state_generation")
            ++ (to_string s.generation
                ++ (b',' ∷ key (codes "disabled")
                    ++ (bool_text s.is_disabled
                        ++ (b',' ∷ key (codes "last_attempt_epoch_ns")
                            ++ (opt_num s.attempts.last_attempt_epoch_ns
                                ++ (b',' ∷ key (codes "next_attempt_epoch_ns")
                                    ++ (opt_num s.attempts.next_attempt_epoch_ns
                                        ++ (b',' ∷ key (codes "backoff_seconds")
                                            ++ (to_string s.attempts.backoff_seconds
                                                ++ (b',' ∷ key (codes "reports")
                                                    ++ (b'[' ∷ encode_reports s.queues.reports
                                                        ++ (b']'
                                                            ∷ (b',' ∷ key (codes "blocked")
                                                            ++ (b'['
                                                            ∷ encode_reports s.queues.blocked
                                                            ++ (b']'
                                                            ∷ (b',' ∷ key (codes "reservation")
                                                            ++ (encode_reservation s.reservation
                                                            ++ b'}' ∷ [])))))))))))))))))))

unfoldable pub ensure_open : LaneState → Bool
ensure_open s = not s.is_fenced

unfoldable pub validate_clock : ClockSample → Bool
validate_clock now = now.synchronized && not (is_nil now.boot_id)

pub record StateCommit : Type 0 where
  pub state_generation : ℕ
  pub state_hash : Bytes

-- `persist` writes a temporary file, renames it over the state file, and syncs the directory.
unfoldable pub persist : IoOutcome → Lane → Answer Unit
persist IoOutcome.saved l =
    (Result.ok tt, record { state = l.state; file = some (canonical_state l.state) })
persist IoOutcome.lost l = fail NotificationStateError.io l
persist IoOutcome.unsynced l =
    fail NotificationStateError.io
      (record { state = l.state; file = some (canonical_state l.state) })

module _ (sha256 : Bytes → Bytes) where
  unfoldable pub state_hash : LaneState → Bytes
  state_hash s = domain_hash sha256 (codes "asrsub-state-v1") (canonical_state s)

  abbrev pub commit_of : LaneState → StateCommit
  commit_of s = record { state_generation = s.generation; state_hash = state_hash s }

  unfoldable pub commit : IoOutcome → Lane → Answer StateCommit
  commit outcome l = elim (checked_add l.state.generation 1) [
    | none ↦ fail NotificationStateError.capacity l
    | some g ↦
        let l' = with_state (with_generation g l.state) l in
        map_answer (λ _. commit_of l'.state) (persist outcome l')
  ]
