-- ===== src/Ladder.antt =====
-- src/ladder.rs: the text sources that spare a transcription. src/jimaku.rs: the choice of an entry and
-- the ranking of its files. Files, the services and the clock are arguments.
pub mod Sound
use asrsub.Prelude.{
  ℕ, ◌+◌, ◌-◌, ◌*◌, Bool, true, false, not, ◌&&◌, ◌||◌, List, [], ◌∷◌, ◌++◌, Option, none, some,
  if◌then◌else◌, is_nil, is_some, leb, ltb, ◌==◌, length, any, F64,
}
use asrsub.Text.{Text, codes, text_eq, is_whitespace}
use asrsub.Srt.{Cue, parse_srt, strip_marker, write_srt}
use asrsub.Srt.Guard.{is_cjk}
use asrsub.Lang.{or_else, normalize_lang}
use asrsub.Lang.Sidecar.{sidecar_paths}

pub data LadderSource : Type 0 where
  sidecar : LadderSource
  jimaku : LadderSource

pub record LadderHit : Type 0 where
  pub cues : List Cue
  pub src_lang : Text
  pub source : Text
  pub source_kind : Option Text
  pub generation_source : LadderSource

-- An episode number that is not positive is 0.
pub record LadderQuery (Num : Type 0) : Type 0 where
  pub stem : Text
  pub target : Text
  pub series_title : Text
  pub season : Option ℕ
  pub episode : ℕ
  pub is_movie : Bool
  pub duration_s : Option Num

pub record LadderConfig (Num : Type 0) : Type 0 where
  pub min_cues : ℕ
  pub min_chars : ℕ
  pub min_cjk : Num
  pub span_tol : Num
  pub jimaku_direct_enabled : Bool

-- `JIMAKU_RETRY_COOLDOWN` in seconds
abbrev pub retry_cooldown : ℕ
retry_cooldown = 24 * 3600

unfoldable pub jimaku_retry_due : Option ℕ → ℕ → Bool
jimaku_retry_due none now = true
jimaku_retry_due (some t) now = leb retry_cooldown (now - t)

abbrev pub count_chars : (ℕ → Bool) → Text → ℕ
count_chars p [] = 0
count_chars p (c ∷ s) = let rest = count_chars p s in if p c then 1 + rest else rest

abbrev pub count_in : (ℕ → Bool) → List Cue → ℕ
count_in p [] = 0
count_in p (c ∷ cues) = count_chars p c.text + count_in p cues

abbrev pub last_end : ℕ → List Cue → ℕ
last_end end_ms [] = end_ms
last_end end_ms (c ∷ cues) = last_end c.end_ms cues

-- The stems that were asked for, with the time, and the text of a stored raw source.
pub record JimakuState : Type 0 where
  pub tried : List (Text × ℕ)
  pub ja_source : Option Text

module _ (F : F64) where
  open F use {Num, of_ℕ, mul, div, sub, add, lt}

  abbrev pub has_cjk : LadderConfig Num → List Cue → Bool
  has_cjk cfg cues =
      let total = count_in (λ c. not (is_whitespace c)) cues in
      not (ltb 0 total && lt (div (of_ℕ (count_in is_cjk cues)) (of_ℕ total)) cfg.min_cjk)

  abbrev pub spans : LadderConfig Num → Option Num → List Cue → Bool
  spans cfg none cues = true
  spans cfg (some dur) [] = true
  spans cfg (some dur) (first ∷ cues) =
      let span = div (of_ℕ (last_end first.end_ms cues - first.start_ms)) (of_ℕ 1000) in
      not (
        lt (of_ℕ 0) dur
        && (lt span (mul dur (sub (of_ℕ 1) cfg.span_tol))
            || lt (mul dur (add (of_ℕ 1) cfg.span_tol)) span))

  unfoldable pub adequate : LadderConfig Num → List Cue → Text → Option Num → Bool
  adequate cfg cues src_lang duration_s =
      leb cfg.min_cues (length cues)
      && leb cfg.min_chars (count_in (λ c. true) cues)
      && (not (text_eq (normalize_lang src_lang) (codes "ja")) || has_cjk cfg cues)
      && spans cfg duration_s cues

  abbrev pub hit_lang : Text → Text
  hit_lang src = if text_eq (normalize_lang src) (codes "en") then codes "en" else codes "ja"

  abbrev pub sidecar_hit : Text → List Cue → LadderHit
  sidecar_hit src cues = record {
    cues = cues;
    src_lang = hit_lang src;
    source = if text_eq (hit_lang src) (codes "en") then codes "eng" else codes "jpn";
    source_kind = some (codes "external");
    generation_source = LadderSource.sidecar;
  }

  abbrev pub hit_of : Text → List Cue → Option LadderHit
  hit_of src cues = if is_nil cues then none else some (sidecar_hit src cues)

  abbrev pub read_hit : LadderConfig Num → Text → Option Num → Option Text → Option LadderHit
  read_hit cfg src duration_s none = none
  read_hit cfg src duration_s (some text) =
      if adequate cfg (parse_srt text) src duration_s
      then hit_of src (strip_marker (parse_srt text))
      else none

  -- `read` gives the text of a regular file that can be read.
  unfoldable pub first_hit :
      LadderConfig Num → (Text → Option Text) → Text → Option Num → List Text → Option LadderHit
  first_hit cfg read src duration_s [] = none
  first_hit cfg read src duration_s (p ∷ paths) =
      or_else (read_hit cfg src duration_s (read p)) (first_hit cfg read src duration_s paths)

  unfoldable pub sidecar_source :
      LadderConfig Num → (Text → Option Text) → LadderQuery Num → List Text → Option LadderHit
  sidecar_source cfg read q [] = none
  sidecar_source cfg read q (src ∷ more) =
      or_else (first_hit cfg read src q.duration_s (sidecar_paths q.stem src))
        (sidecar_source cfg read q more)

  unfoldable pub src_langs : Text → List Text
  src_langs target =
      if text_eq (normalize_lang target) (codes "en")
      then codes "ja" ∷ codes "en" ∷ []
      else codes "ja" ∷ []

  abbrev pub may_ask : LadderConfig Num → Bool → LadderQuery Num → Bool
  may_ask cfg has_key q =
      not q.is_movie
      && cfg.jimaku_direct_enabled
      && has_key
      && ltb 0 q.episode
      && not (is_nil q.series_title)
      && not (text_eq q.series_title (codes "?"))

  abbrev pub last_try : Text → List (Text × ℕ) → Option ℕ
  last_try stem [] = none
  last_try stem ((s, t) ∷ more) =
      let later = last_try stem more in if text_eq s stem then some t else later

  abbrev pub jimaku_hit : List Cue → LadderHit
  jimaku_hit cues = record {
    cues = cues;
    src_lang = codes "ja";
    source = codes "jpn";
    source_kind = some (codes "external");
    generation_source = LadderSource.jimaku;
  }

  -- The raw source is written where none is; the argument says whether the write succeeds.
  abbrev pub kept_source : Bool → Option Text → List Cue → Option Text
  kept_source is_written (some text) cues = some text
  kept_source is_written none cues = if is_written then some (write_srt cues false 0) else none

  abbrev pub hit_and_keep : Bool → List Cue → JimakuState → Option LadderHit × JimakuState
  hit_and_keep is_written cues s = if is_nil cues then (none, s) else (
    some (jimaku_hit cues),
    record { tried = s.tried; ja_source = kept_source is_written s.ja_source cues },
  )

  abbrev pub judge :
      LadderConfig Num
      → Option Num
      → Bool
      → Option Text
      → JimakuState
      → Option LadderHit × JimakuState
  judge cfg duration_s is_written none s = (none, s)
  judge cfg duration_s is_written (some text) s =
      if adequate cfg (parse_srt text) (codes "ja") duration_s
      then hit_and_keep is_written (strip_marker (parse_srt text)) s
      else (none, s)

  -- `fetched` is the text that the services give for the series and the episode, if each of them
  -- answers. The try is noted before they are asked.
  unfoldable pub jimaku_candidate :
      LadderConfig Num
      → ℕ
      → Bool
      → Option Text
      → LadderQuery Num
      → JimakuState
      → Option LadderHit × JimakuState
  jimaku_candidate cfg now is_written fetched q s =
      if jimaku_retry_due (last_try q.stem s.tried) now
      then judge cfg q.duration_s is_written fetched
          (record { tried = (q.stem, now) ∷ s.tried; ja_source = s.ja_source })
      else (none, s)

  abbrev pub or_ask :
      Option LadderHit
      → Option LadderHit × JimakuState
      → JimakuState
      → Option LadderHit × JimakuState
  or_ask (some hit) asked s = (some hit, s)
  or_ask none asked s = asked

  unfoldable pub ladder_source :
      LadderConfig Num
      → (Text → Option Text)
      → Bool
      → ℕ
      → Bool
      → Option Text
      → LadderQuery Num
      → JimakuState
      → Option LadderHit × JimakuState
  ladder_source cfg read has_key now is_written fetched q s =
      or_ask (sidecar_source cfg read q (src_langs q.target))
        (if may_ask cfg has_key q
          then jimaku_candidate cfg now is_written fetched q s
          else (none, s))
        s
