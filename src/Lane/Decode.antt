-- ===== src/Lane/Decode.antt =====
-- src/discord_state_codec.rs and src/discord_state_lane.rs: reports and the state, read from their bytes.
use asrsub.Prelude.{
  ℕ, ◌%◌, ◌^◌, Bool, false, ◌&&◌, ◌||◌, List, [], ◌∷◌, Option, none, some, if◌then◌else◌, leb, ltb,
  ◌==◌, length, all,
}
use asrsub.Text.{Text, codes, text_eq, is_digit}
use asrsub.Report.{
  Bytes, EpisodeKind, ItemFailure, WarningClass, FailureClass, TargetStatus, AggregateDisposition,
  TargetRunResult, EpisodeRunReport, Built, Result, and_then, parse_language, new_target,
  bound_targets,
}
use asrsub.Report.Reduce.{new_report}
use asrsub.Report.Codec.{encode_report}
use asrsub.Json.{Json, str_field}
use asrsub.Ledger.Digest.{hex_pairs}
use asrsub.Lane.State.{NotificationStateError}

abbrev pub Read : Type 0 → Type 0
Read A = Result NotificationStateError A

abbrev pub wanted : {A : Type 0} → Option A → Read A
wanted none = Result.err NotificationStateError.corrupt
wanted (some a) = Result.ok a

-- `map_err(|_| Corrupt)`
abbrev pub built : {A : Type 0} → Built A → Read A
built (Result.ok a) = Result.ok a
built (Result.err e) = Result.err NotificationStateError.corrupt

unfoldable pub status_of : Text → Option TargetStatus
status_of t =
    if text_eq t (codes "ok")
    then some (TargetStatus.completed none)
    else if text_eq t (codes "warn-upload")
    then some (TargetStatus.completed (some WarningClass.upload))
    else if text_eq t (codes "warn-unknown")
    then some (TargetStatus.completed (some WarningClass.unknown))
    else if text_eq t (codes "fail-source")
    then some (TargetStatus.failed FailureClass.source)
    else if text_eq t (codes "fail-transcription")
    then some (TargetStatus.failed FailureClass.transcription)
    else if text_eq t (codes "fail-translation")
    then some (TargetStatus.failed FailureClass.translation)
    else if text_eq t (codes "fail-storage")
    then some (TargetStatus.failed FailureClass.storage)
    else if text_eq t (codes "fail-unknown")
    then some (TargetStatus.failed FailureClass.unknown)
    else if text_eq t (codes "fail-language")
    then some TargetStatus.missing_language
    else none

abbrev pub kind_named : Text → Option EpisodeKind
kind_named t =
    if text_eq t (codes "series")
    then some EpisodeKind.series
    else if text_eq t (codes "movie")
    then some EpisodeKind.movie
    else none

abbrev pub failure_named : Text → Option ItemFailure
failure_named t =
    if text_eq t (codes "source")
    then some ItemFailure.source
    else if text_eq t (codes "storage")
    then some ItemFailure.storage
    else if text_eq t (codes "unknown")
    then some ItemFailure.unknown
    else none

abbrev pub aggregate_named : Text → Option AggregateDisposition
aggregate_named t =
    if text_eq t (codes "complete")
    then some AggregateDisposition.complete
    else if text_eq t (codes "complete-with-warning")
    then some AggregateDisposition.complete_with_warning
    else if text_eq t (codes "partial")
    then some AggregateDisposition.partial
    else if text_eq t (codes "failed")
    then some AggregateDisposition.failed
    else none

abbrev pub is_lower_hex : ℕ → Bool
is_lower_hex c = is_digit c || (leb b'a' c && leb c b'f')

-- `decode_hex`; a text with a char past ASCII has a pair that is refused.
unfoldable pub even_pairs : Text → Option Bytes
even_pairs s = if length s % 2 == 0 then hex_pairs s else none

-- What a failed test on the last field of two gives.
abbrev pub failure_of : Option Text → Read (Option ItemFailure)
failure_of none = Result.ok none
failure_of (some t) = and_then (wanted (failure_named t)) (λ f. Result.ok (some f))

abbrev pub small : Option ℕ → Read (Option ℕ)
small none = Result.ok none
small (some n) =
    if ltb n (2 ^ 32) then Result.ok (some n) else Result.err NotificationStateError.corrupt

module _ (J : Json) where
  abbrev pub str_of : Text → J.Value → Read Text
  str_of k v = wanted (str_field J k v)

  abbrev pub field : Text → J.Value → Read J.Value
  field k v = wanted (J.get k v)

  abbrev pub digest_text : Option Text → Read (Option Bytes)
  digest_text none = Result.err NotificationStateError.corrupt
  digest_text (some s) =
      if (length s == 64) && all is_lower_hex s
      then and_then (wanted (hex_pairs s)) (λ d. Result.ok (some d))
      else Result.err NotificationStateError.corrupt

  abbrev pub digest_value : J.Value → Read (Option Bytes)
  digest_value v = if J.is_null v then Result.ok none else digest_text (J.as_str v)

  unfoldable pub decode_target : J.Value → Read TargetRunResult
  decode_target o =
      and_then (if J.is_object o then Result.ok tt else Result.err NotificationStateError.corrupt)
        (λ _. and_then (str_of (codes "language") o) (λ raw.
          and_then (built (parse_language raw)) (λ language.
            and_then (str_of (codes "status") o) (λ status_raw.
              and_then (wanted (status_of status_raw)) (λ status.
                and_then (field (codes "artifact_sha256") o) (λ value.
                  and_then (digest_value value)
                    (λ digest. built (new_target language status digest))))))))

  unfoldable pub decode_targets : List J.Value → Read (List TargetRunResult)
  decode_targets [] = Result.ok []
  decode_targets (o ∷ more) =
      and_then (decode_target o)
        (λ target. and_then (decode_targets more) (λ later. Result.ok (target ∷ later)))

  abbrev pub array_of : Text → J.Value → Read (List J.Value)
  array_of k v = and_then (field k v) (λ a. wanted (J.as_array a))

  abbrev pub has_schema : Text → J.Value → Bool
  has_schema name v = elim (str_field J (codes "schema") v) [
    | some s ↦ text_eq s name
    | none ↦ false
  ]

  module _ (sha256 : Bytes → Bytes) (is_title : Text → Bool) where
    abbrev same_bytes : Bytes → EpisodeRunReport → Read EpisodeRunReport
    same_bytes bytes report =
        if text_eq (encode_report report) bytes
        then Result.ok report
        else Result.err NotificationStateError.contradiction

    -- The fields in the order in which they are read. The test says whether a title is as `sanitize` leaves it.
    unfoldable pub decode_value : Bytes → J.Value → Read EpisodeRunReport
    decode_value bytes v = and_then (field (codes "kind") v) (λ kind_value.
        and_then (wanted (J.as_str kind_value)) (λ kind_raw.
          and_then (wanted (kind_named kind_raw)) (λ kind.
            and_then (field (codes "episode_id") v) (λ id_value.
              and_then (wanted (J.as_i64 id_value)) (λ id.
                and_then (str_of (codes "title") v) (λ title.
                  and_then
                    (if is_title title
                      then Result.ok tt
                      else Result.err NotificationStateError.corrupt)
                    (λ _. and_then (field (codes "season") v) (λ season_value.
                      and_then (small (J.as_u64 season_value)) (λ season.
                        and_then (field (codes "episode") v) (λ episode_value.
                          and_then (small (J.as_u64 episode_value)) (λ episode.
                            and_then (array_of (codes "targets") v) (λ items.
                              and_then (decode_targets items) (λ targets.
                                and_then (field (codes "item_failure") v) (λ failure_value.
                                  and_then (failure_of (J.as_str failure_value)) (λ item_failure.
                                    and_then (str_of (codes "aggregate") v) (λ aggregate_raw.
                                      and_then (wanted (aggregate_named aggregate_raw))
                                        (λ aggregate.
                                          and_then (built (bound_targets targets)) (λ bounded.
                                            and_then
                                              (built (
                                                new_report sha256 (record {
                                                  kind = kind;
                                                  episode_id = id;
                                                  title = title;
                                                  season = season;
                                                  episode = episode;
                                                  targets = bounded;
                                                  item_failure = item_failure;
                                                  aggregate = aggregate;
                                                  pipeline_commit_id = none;
                                                })))
                                              (λ report. same_bytes bytes report)))))))))))))))))))

    unfoldable pub decode_report : Bytes → Read EpisodeRunReport
    decode_report bytes = and_then (wanted (J.from_str bytes)) (λ v.
        if J.is_object v && (J.field_count v == 9) && has_schema (codes "report-v1") v
        then decode_value bytes v
        else Result.err NotificationStateError.corrupt)

    abbrev decode_encoded : J.Value → Read EpisodeRunReport
    decode_encoded encoded =
        and_then (wanted (J.as_str encoded))
          (λ s. and_then (wanted (even_pairs s)) (λ bytes. decode_report bytes))

    unfoldable pub decode_reports : List J.Value → Read (List EpisodeRunReport)
    decode_reports [] = Result.ok []
    decode_reports (e ∷ more) =
        and_then (decode_encoded e)
          (λ report. and_then (decode_reports more) (λ later. Result.ok (report ∷ later)))
