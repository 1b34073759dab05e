-- ===== src/Lane/Loading.antt =====
-- src/discord_state_lane.rs: opening the lane, and the snapshot and the restore of its state.
use asrsub.Prelude.{
  ℕ, ◌+◌, ◌*◌, ◌-◌, ◌^◌, Bool, true, false, not, ◌&&◌, ◌||◌, List, [], ◌∷◌, ◌++◌, Option, none,
  some, if◌then◌else◌, is_nil, ltb, ◌==◌, length, checked_add, min,
}
use asrsub.Text.{Text, codes, text_eq}
use asrsub.Report.{Bytes, EpisodeRunReport, Result, and_then}
use asrsub.Report.Codec.{domain_hash, hex}
use asrsub.Json.{Json}
use asrsub.Lane.Clock.{attempt_window_ns}
use asrsub.Lane.State.{
  NotificationStateError, Reservation, LaneState, Lane, IoOutcome, Answer, fail, map_answer,
  with_state, with_generation, with_queues, with_delivery, with_disabled, canonical_state, persist,
  state_hash, commit_of, StateCommit,
}
use asrsub.Lane.Decode.{Read, wanted, even_pairs, array_of, has_schema, str_of, decode_reports}

-- `MAX_PAYLOAD_BYTES`
abbrev pub max_payload_bytes : ℕ
max_payload_bytes = 65_536

-- `MAX_STATE_BYTES`
abbrev pub max_state_bytes : ℕ
max_state_bytes = 4 * 1024 * 1024

-- What `parse_state_bytes` reads
pub record Parsed : Type 0 where
  pub reports : List EpisodeRunReport
  pub is_disabled : Bool
  pub reservation : Option Reservation
  pub blocked : List EpisodeRunReport

abbrev pub or_zero : Option ℕ → ℕ
or_zero none = 0
or_zero (some n) = n

abbrev pub or_value : ℕ → Option ℕ → ℕ
or_value d none = d
or_value d (some n) = n

-- `saturating_add` on `u64`
abbrev pub saturating_add : ℕ → ℕ → ℕ
saturating_add a b = min (a + b) (2 ^ 64 - 1)

-- The state file: its text if it is there and can be read.
pub data StateFile : Type 0 where
  absent : StateFile
  unreadable : StateFile
  present : Bytes → StateFile

abbrev pub fresh_state : LaneState
fresh_state = record {
  generation = 0;
  queues = record { reports = []; blocked = [] };
  reservation = none;
  is_disabled = false;
  operation_id = 0;
  is_fenced = false;
  attempts = record {
    last_attempt_epoch_ns = none;
    next_attempt_epoch_ns = none;
    backoff_seconds = 0;
  };
}

pub record StateSnapshot : Type 0 where
  pub generation : ℕ
  pub hash : Bytes
  pub is_disabled : Bool

module _ (J : Json) (sha256 : Bytes → Bytes) (is_title : Text → Bool) where
  abbrev pub u64_field : Text → J.Value → Option ℕ
  u64_field k v = elim (J.get k v) [ some n ↦ J.as_u64 n | none ↦ none ]

  abbrev bytes_of : Text → J.Value → Read Bytes
  bytes_of k v = and_then (str_of J k v) (λ s. wanted (even_pairs s))

  abbrev texts : List J.Value → List Text
  texts [] = []
  texts (v ∷ more) = elim (J.as_str v) [ some s ↦ s ∷ texts more | none ↦ texts more ]

  abbrev captured_of : Option (List J.Value) → List Text
  captured_of none = []
  captured_of (some items) = texts items

  abbrev list_of : Text → J.Value → Option (List J.Value)
  list_of k v = elim (J.get k v) [ some a ↦ J.as_array a | none ↦ none ]

  abbrev pub started_at : Option ℕ → J.Value → ℕ
  started_at next v =
      or_value (or_zero next - attempt_window_ns) (u64_field (codes "attempt_started_epoch_ns") v)

  abbrev reservation_of : Option ℕ → J.Value → Bytes → Bytes → Reservation
  reservation_of next v id payload = record {
    id = id;
    payload = payload;
    captured = captured_of (list_of (codes "captured") v);
    attempt_started_epoch_ns = started_at next v;
    attempt_started_monotonic_ns = or_zero (u64_field (codes "attempt_started_monotonic_ns") v);
    reserved_next_attempt_epoch_ns =
        or_value (or_value (saturating_add (started_at next v) attempt_window_ns) next)
          (u64_field (codes "reserved_next_attempt_epoch_ns") v);
  }

  unfoldable pub parse_reservation : Option ℕ → J.Value → Read Reservation
  parse_reservation next v =
      and_then (if J.is_object v then Result.ok tt else Result.err NotificationStateError.corrupt)
        (λ _. and_then (bytes_of (codes "id") v) (λ id.
          and_then
            (if length id == 32 then Result.ok tt else Result.err NotificationStateError.corrupt)
            (λ _. and_then (bytes_of (codes "payload") v) (λ payload.
              if is_nil payload || ltb max_payload_bytes (length payload)
              then Result.err NotificationStateError.capacity
              else Result.ok (reservation_of next v id payload)))))

  abbrev reservation_field : Option ℕ → Option J.Value → Read (Option Reservation)
  reservation_field next none = Result.ok none
  reservation_field next (some v) =
      if J.is_null v
      then Result.ok none
      else and_then (parse_reservation next v) (λ r. Result.ok (some r))

  abbrev blocked_field : Option (List J.Value) → Read (List EpisodeRunReport)
  blocked_field none = Result.ok []
  blocked_field (some items) = decode_reports J sha256 is_title items

  abbrev pub flag : Option J.Value → Bool
  flag none = false
  flag (some v) = elim (J.as_bool v) [ some b ↦ b | none ↦ false ]

  unfoldable pub parse_state : J.Value → Read Parsed
  parse_state v =
      if not (J.is_object v && has_schema J (codes "state-v1") v)
      then Result.err NotificationStateError.corrupt
      else and_then (array_of J (codes "reports") v) (λ items.
        and_then (decode_reports J sha256 is_title items) (λ reports.
          and_then (blocked_field (list_of (codes "blocked") v)) (λ blocked.
            and_then
              (reservation_field (u64_field (codes "next_attempt_epoch_ns") v)
                (J.get (codes "reservation") v))
              (λ reservation. Result.ok (record {
                reports = reports;
                is_disabled = flag (J.get (codes "disabled") v);
                reservation = reservation;
                blocked = blocked;
              })))))

  unfoldable pub parse_state_bytes : Bytes → Read Parsed
  parse_state_bytes bytes = and_then (wanted (J.from_str bytes)) parse_state

  abbrev loaded : J.Value → ℕ → Parsed → LaneState → LaneState
  loaded v generation p s = record {
    generation = generation;
    queues = record { reports = p.reports; blocked = p.blocked };
    reservation = p.reservation;
    is_disabled = p.is_disabled;
    operation_id = s.operation_id;
    is_fenced = s.is_fenced;
    attempts = record {
      last_attempt_epoch_ns = u64_field (codes "last_attempt_epoch_ns") v;
      next_attempt_epoch_ns = u64_field (codes "next_attempt_epoch_ns") v;
      backoff_seconds = or_zero (u64_field (codes "backoff_seconds") v);
    };
  }

  abbrev load_rest : J.Value → ℕ → Read Parsed → LaneState → Read Unit × LaneState
  load_rest v generation (Result.err e) s = (Result.err e, with_generation generation s)
  load_rest v generation (Result.ok p) s = (Result.ok tt, loaded v generation p s)

  abbrev load_value : J.Value → Option ℕ → LaneState → Read Unit × LaneState
  load_value v none s = (Result.err NotificationStateError.corrupt, s)
  load_value v (some generation) s = load_rest v generation (parse_state v) s

  -- The generation is set before the rest is read, and stays where the rest is refused.
  unfoldable pub load_state : StateFile → LaneState → Read Unit × LaneState
  load_state (StateFile.present bytes) s = elim (J.from_str bytes) [
    | none ↦ (Result.err NotificationStateError.corrupt, s)
    | some v ↦ load_value v (u64_field (codes "state_generation") v) s
  ]
  load_state _ s = (Result.err NotificationStateError.io, s)

  -- The name under which a file that cannot be loaded is put aside
  abbrev pub quarantine_name : Bytes → Text
  quarantine_name bytes =
      codes "state-"
      ++ hex (domain_hash sha256 (codes "asrsub-quarantine-v1") bytes)
      ++ codes ".json"

  -- What is at the state's path: nothing, if the file could be put aside. What a file that cannot be read
  -- holds is not known, and stands as nothing.
  abbrev pub quarantine : Bool → StateFile → Option Bytes
  quarantine is_moved (StateFile.present bytes) = if is_moved then none else some bytes
  quarantine is_moved _ = none

  abbrev opened : IoOutcome → Bool → StateFile → Read Unit × LaneState → Answer Unit
  opened outcome is_moved (StateFile.present bytes) (Result.ok _, s) =
      (Result.ok tt, record { state = s; file = some bytes })
  opened outcome is_moved f (Result.ok _, s) = (Result.ok tt, record { state = s; file = none })
  opened outcome is_moved f (Result.err e, s) =
      persist outcome (record { state = with_disabled true s; file = quarantine is_moved f })

  -- Behind the making of the directory and of the lock file.
  unfoldable pub open_lane : IoOutcome → Bool → StateFile → Answer Unit
  open_lane outcome is_moved StateFile.absent =
      persist outcome (record { state = fresh_state; file = none })
  open_lane outcome is_moved StateFile.unreadable =
      opened outcome is_moved StateFile.unreadable (load_state StateFile.unreadable fresh_state)
  open_lane outcome is_moved (StateFile.present bytes) =
      opened outcome is_moved (StateFile.present bytes)
        (load_state (StateFile.present bytes) fresh_state)

  unfoldable pub inspect : Lane → StateSnapshot
  inspect l = record {
    generation = l.state.generation;
    hash = state_hash sha256 l.state;
    is_disabled = l.state.is_disabled;
  }

  -- The bytes, and their hash
  unfoldable pub snapshot : Lane → Read (Bytes × Bytes)
  snapshot l =
      if ltb max_state_bytes (length (canonical_state l.state))
      then Result.err NotificationStateError.capacity
      else Result.ok (canonical_state l.state, state_hash sha256 l.state)

  abbrev with_reports : List EpisodeRunReport → LaneState → LaneState
  with_reports reports s = with_queues (record { reports = reports; blocked = s.queues.blocked }) s

  abbrev restored : IoOutcome → LaneState → Option ℕ → Lane → Answer StateCommit
  restored outcome s none l = fail NotificationStateError.capacity (with_state s l)
  restored outcome s (some generation) l =
      let s' = with_delivery none s.attempts (with_generation generation s) in
      map_answer (λ _. commit_of sha256 s') (persist outcome (with_state s' l))

  abbrev pub restore_parsed : IoOutcome → Read Parsed → Lane → Answer StateCommit
  restore_parsed outcome (Result.err e) l = fail NotificationStateError.corrupt l
  restore_parsed outcome (Result.ok p) l =
      restored outcome (with_reports p.reports l.state) (checked_add l.state.generation 1) l

  unfoldable pub restore : IoOutcome → Bytes → Bytes → ℕ → Lane → Answer StateCommit
  restore outcome bytes expected_hash expected_generation l =
      if not (text_eq (state_hash sha256 l.state) expected_hash)
        || not (l.state.generation == expected_generation)
      then fail NotificationStateError.stale_view l
      else restore_parsed outcome (parse_state_bytes bytes) l
