-- ===== src/Ladder/Sound.antt =====
-- What a text source of the ladder is.
use asrsub.Prelude.{◌≡◌, ◌≢◌, true, List, [], Option, F64}
use asrsub.Text.{Text}
use asrsub.Srt.{parse_srt, strip_marker}
use asrsub.Lang.Sidecar.{has_text}
use asrsub.Ladder.{LadderHit, LadderQuery, LadderConfig, adequate, hit_lang}

module _ (F : F64) where
  open F use {Num}

  -- The dialogue of a text that passes the gate for the language `src`
  abbrev pub IsHit : LadderConfig Num → Option Num → Text → LadderHit → Type 0
  IsHit cfg duration_s src hit =
      (text : Text) × (adequate F cfg (parse_srt text) src duration_s ≡ true)
      × (hit.cues ≡ strip_marker (parse_srt text))
      × (hit.cues ≢ [])
      × (hit.src_lang ≡ hit_lang F src)

  module _ (cfg : LadderConfig Num) (q : LadderQuery Num) where
    -- The languages that may be read, each with its hit
    abbrev pub HitOf : List Text → LadderHit → Type 0
    HitOf langs hit = (src : Text) × (has_text src langs ≡ true) × IsHit cfg q.duration_s src hit
