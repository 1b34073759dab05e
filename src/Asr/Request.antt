-- ===== src/Asr/Request.antt =====
-- src/asr.rs: a request to the Whisper endpoints, and the transcript of a file or of its pieces. What an
-- endpoint answers is an argument.
use asrsub.Prelude.{
  ℕ, ◌+◌, ◌%◌, ◌^◌, Bool, not, List, [], ◌∷◌, ◌++◌, Option, none, some, if◌then◌else◌, is_nil, F64,
}
use asrsub.Text.{Text, codes, trim}
use asrsub.Report.{Result, and_then}
use asrsub.Json.{Json, str_field}
use asrsub.Srt.{Cue}
use asrsub.Provider.{Pool, WhisperProvider, Event, ordered_whisper, whisper_banned, record_whisper}
use asrsub.Asr.{AsrError, wire_lang, text_or, detected_lang, effective_lang, check_pinned_lang}

-- What comes of one POST; the body of a success may be no JSON.
pub data PostOutcome (Value : Type 0) : Type 0 where
  transport : PostOutcome Value
  status : PostOutcome Value
  body : Option Value → PostOutcome Value

pub record Transcript : Type 0 where
  pub cues : List Cue
  pub lang : Text
  pub whisper_models : List Text

module _ (J : Json) where
  abbrev pub Asked : Type 0
  Asked = Result AsrError (J.Value × Text) × Pool

  abbrev decoded : Text → Option J.Value → Result AsrError (J.Value × Text)
  decoded model (some value) = Result.ok (value, model)
  decoded model none = Result.err AsrError.undecodable

  abbrev answered : ℕ → ℕ → Text → PostOutcome J.Value → (Pool → Asked) → Pool → Asked
  answered now idx model PostOutcome.transport further pool =
      further (record_whisper idx (Event.failure now) pool)
  answered now idx model PostOutcome.status further pool =
      further (record_whisper idx (Event.failure now) pool)
  answered now idx model (PostOutcome.body value) further pool =
      (decoded model value, record_whisper idx Event.success pool)

  -- The endpoints in turn; one without a key is passed over.
  unfoldable pub try_endpoints :
      (ℕ → PostOutcome J.Value) → ℕ → List (ℕ × WhisperProvider) → Pool → Asked
  try_endpoints post now [] pool = (Result.err AsrError.all_failed, pool)
  try_endpoints post now ((idx, wp) ∷ more) pool =
      if is_nil wp.api_key
      then try_endpoints post now more pool
      else answered now idx wp.model (post idx) (try_endpoints post now more) pool

  -- `post` gives the answer of the endpoint with an index. One time stands for all the failures.
  unfoldable pub whisper_request : (ℕ → PostOutcome J.Value) → ℕ → Pool → Asked
  whisper_request post now pool =
      let endpoints = ordered_whisper pool now in
      if is_nil endpoints
      then (Result.err AsrError.not_configured, pool)
      else try_endpoints post now endpoints pool

  module _ (F : F64) (as_f64 : J.Value → Option F.Num) where
    abbrev ms_of : Option F.Num → ℕ
    ms_of none = F.to_u32 (F.mul (F.of_ℕ 0) (F.of_ℕ 1000))
    ms_of (some x) = F.to_u32 (F.mul x (F.of_ℕ 1000))

    abbrev pub time_of : Text → J.Value → ℕ
    time_of key segment = ms_of (elim (J.get key segment) [ some x ↦ as_f64 x | none ↦ none ])

    abbrev u32 : ℕ → ℕ
    u32 n = n % 2 ^ 32

    abbrev cons_cue : Text → ℕ → ℕ → List Cue → List Cue
    cons_cue text start_ms end_ms rest =
        if is_nil text
        then rest
        else record { start_ms = start_ms; end_ms = end_ms; text = text } ∷ rest

    unfoldable pub segment_cues : ℕ → List J.Value → List Cue
    segment_cues offset_ms [] = []
    segment_cues offset_ms (s ∷ more) =
        cons_cue (trim (text_or [] (str_field J (codes "text") s)))
          (u32 (offset_ms + time_of (codes "start") s)) (u32 (offset_ms + time_of (codes "end") s))
          (segment_cues offset_ms more)

    abbrev plain_cue : ℕ → Option Text → List Cue
    plain_cue offset_ms none = []
    plain_cue offset_ms (some text) = cons_cue (trim text) offset_ms (u32 (offset_ms + 8000)) []

    abbrev segments_of : J.Value → Option (List J.Value)
    segments_of v = elim (J.get (codes "segments") v) [ some s ↦ J.as_array s | none ↦ none ]

    -- Sums of times wrap, as in a release build.
    unfoldable pub cues_from_verbose : J.Value → ℕ → List Cue
    cues_from_verbose v offset_ms = elim (segments_of v) [
      | some segments ↦ segment_cues offset_ms segments
      | none ↦ plain_cue offset_ms (str_field J (codes "text") v)
    ]

    abbrev guard_pin : Option Text → J.Value → Result AsrError Unit
    guard_pin none v = Result.ok tt
    guard_pin (some sent) v = check_pinned_lang J sent v

    abbrev transcript_of :
        Option Text → Result AsrError (J.Value × Text) → Result AsrError Transcript
    transcript_of lang (Result.err e) = Result.err e
    transcript_of lang (Result.ok (v, model)) = and_then (guard_pin lang v) (λ _.
        and_then (effective_lang J lang v) (λ l.
          Result.ok
            (record { cues = cues_from_verbose v 0; lang = l; whisper_models = model ∷ [] })))

    -- Whether the file can be read is an argument too.
    unfoldable pub transcribe_file :
        Bool
        → (ℕ → PostOutcome J.Value)
        → ℕ
        → Option Text
        → Pool
        → Result AsrError Transcript × Pool
    transcribe_file readable post now lang pool =
        if whisper_banned pool now
        then (Result.err AsrError.circuit_open, pool)
        else if not readable
        then (Result.err AsrError.unreadable, pool)
        else (
          transcript_of lang (whisper_request post now pool).0,
          (whisper_request post now pool).1,
        )

    -- The value of a follow-up piece, under the pin that its request carried
    abbrev piece_cues : Option Text → J.Value × ℕ → Result AsrError (List Cue)
    piece_cues sent (v, offset_ms) =
        and_then (guard_pin sent v) (λ _. Result.ok (cues_from_verbose v offset_ms))

    unfoldable pub rest_cues : Option Text → List (J.Value × ℕ) → Result AsrError (List Cue)
    rest_cues sent [] = Result.ok []
    rest_cues sent (piece ∷ more) =
        and_then (piece_cues sent piece)
          (λ cues. and_then (rest_cues sent more) (λ later. Result.ok (cues ++ later)))

    abbrev with_lang : Text → List Cue → List (J.Value × ℕ) → Result AsrError (List Cue × Text)
    with_lang lang first pieces =
        and_then (rest_cues (wire_lang (some lang)) pieces)
          (λ later. Result.ok (first ++ later, lang))

    -- `transcribe_pieces` over the answers and the offsets of the pieces, where every request is
    -- answered: the cues, and the language. Of several failures the first in the order of pieces counts.
    unfoldable pub transcribe_pieces :
        Option Text → List (J.Value × ℕ) → Result AsrError (List Cue × Text)
    transcribe_pieces (some pinned) pieces = with_lang pinned [] pieces
    transcribe_pieces none [] = Result.err AsrError.all_failed
    transcribe_pieces none ((v, offset_ms) ∷ more) =
        and_then (detected_lang J v)
          (λ detected. with_lang detected (cues_from_verbose v offset_ms) more)
