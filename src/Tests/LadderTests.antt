-- ===== src/Tests/LadderTests.antt =====
-- Runs of the theorems on the ladder's text sources.
use asrsub.Prelude.{ℕ, true, false, [], ◌∷◌, ◌++◌, none, some}
use asrsub.Text.{Text, codes, nl}
use asrsub.Ladder.{LadderHit, LadderQuery, LadderConfig, JimakuState, LadderSource}

abbrev lenient : LadderConfig ℕ
lenient = record {
  min_cues = 1;
  min_chars = 1;
  min_cjk = 0;
  span_tol = 0;
  jimaku_direct_enabled = true;
}

abbrev episode : LadderQuery ℕ
episode = record {
  stem = codes "/m/a";
  target = codes "id";
  series_title = codes "A";
  season = none;
  episode = 1;
  is_movie = false;
  duration_s = none;
}

abbrev fresh : JimakuState
fresh = record { tried = []; ja_source = none }

abbrev fetched : Text
fetched =
    codes "1" ++ nl ∷ codes "00:00:01,000 --> 00:00:02,000" ++ nl ∷ codes "hai" ++ nl ∷ nl ∷ []

abbrev said : LadderHit
said = record {
  cues = (record { start_ms = 1000; end_ms = 2000; text = codes "hai" }) ∷ [];
  src_lang = codes "ja";
  source = codes "jpn";
  source_kind = some (codes "external");
  generation_source = LadderSource.jimaku;
}
