-- ===== src/Lane/Request.antt =====
-- A request is a call of an operation that may change the lane; `perform` is the error and the lane
-- it leaves, `run` a sequence of calls.
use asrsub.Prelude.{ℕ, Bool, List, [], ◌∷◌, Option, none, some}
use asrsub.Report.{Bytes, EpisodeRunReport, Result}
use asrsub.Lane.State.{NotificationStateError, ClockSample, Lane, IoOutcome, Answer}
use asrsub.Text.{Text}
use asrsub.Json.{Json}
use asrsub.Lane.Loading
use asrsub.Lane.Operations
use asrsub.Lane.Operations.{SafeDeliveryError}

pub data Request : Type 0 where
  enqueue : IoOutcome → List EpisodeRunReport → ClockSample → Request
  reserve_rendered : IoOutcome → ClockSample → ℕ → Bytes → Request
  resume_reservation : IoOutcome → ClockSample → Request
  acknowledge : IoOutcome → Bytes → Bytes → Request
  record_attempt_failure : IoOutcome → Bytes → SafeDeliveryError → ClockSample → Option ℕ → Request
  retry_blocked : IoOutcome → ClockSample → Request
  reset_delivery : IoOutcome → Bytes → Request
  fence : Request
  -- the bytes of the snapshot, and the hash and the generation that the lane has to have
  restore : IoOutcome → Bytes → Bytes → ℕ → Request

abbrev pub report_of : {A : Type 0} → Answer A → Option NotificationStateError × Lane
report_of (Result.ok a, l) = (none, l)
report_of (Result.err e, l) = (some e, l)

module _ (J : Json) (sha256 : Bytes → Bytes) (is_title : Text → Bool) where
  abbrev pub perform : Request → Lane → Option NotificationStateError × Lane
  perform (Request.enqueue o rs now) l = report_of (Operations.enqueue sha256 o rs now l)
  perform (Request.reserve_rendered o now g p) l =
      report_of (Operations.reserve_rendered sha256 o now g p l)
  perform (Request.resume_reservation o now) l =
      report_of (Operations.resume_reservation sha256 o now l)
  perform (Request.acknowledge o id h) l = report_of (Operations.acknowledge sha256 o id h l)
  perform (Request.record_attempt_failure o id c now ra) l =
      report_of (Operations.record_attempt_failure sha256 o id c now ra l)
  perform (Request.retry_blocked o now) l = report_of (Operations.retry_blocked sha256 o now l)
  perform (Request.reset_delivery o h) l = report_of (Operations.reset_delivery sha256 o h l)
  perform Request.fence l = report_of (Operations.fence sha256 l)
  perform (Request.restore o bytes h g) l =
      report_of (Loading.restore J sha256 is_title o bytes h g l)

  abbrev pub run : List Request → Lane → Lane
  run [] l = l
  run (q ∷ qs) l = run qs (perform q l).1
