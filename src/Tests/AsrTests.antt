-- ===== src/Tests/AsrTests.antt =====
-- Runs of the theorems on audio tracks and transcripts.
use asrsub.Prelude.{ℕ, ◌≡◌, refl, List, [], ◌∷◌, none, some, All}
use asrsub.Text.{Text, codes, trim}
use asrsub.Report.{Result}
use asrsub.Lang.{wire_accepts, has_code, normalize_lang}
use asrsub.Asr.{AudioStream, AudioChoice, choose_source, wire_lang, check_pinned_lang}
use asrsub.Asr.Carried.{IsBest, IsChoiceOf, choose_source-IsChoiceOf}
use asrsub.Asr.Request.{transcribe_pieces, rest_cues, cues_from_verbose}
use asrsub.Asr.Pinned.{Agrees, transcribe_pieces-Agrees}
use asrsub.Tests.SrtTests.{whole}
use asrsub.Tests.LedgerTests.{text_values}

abbrev two_tracks : List AudioStream
two_tracks =
    (record { index = 0; language = some (codes "eng"); title = none })
    ∷ (record { index = 1; language = some (codes "jpn"); title = none })
    ∷ []

choose_source-IsChoiceOf_example :
    (s : AudioStream) × (c : AudioChoice) × (choose_source two_tracks (codes "id") none ≡ some c)
    × IsBest two_tracks (normalize_lang (codes "id")) s
    × IsChoiceOf (normalize_lang (codes "id")) s c
choose_source-IsChoiceOf_example = choose_source-IsChoiceOf two_tracks (codes "id") none (λ e. cc)

accepted : wire_lang (some (codes "ja")) ≡ some (codes "ja")
unfolding wire_lang wire_accepts has_code trim
accepted = refl

-- Two answers without a language
transcribed :
    transcribe_pieces text_values whole
      (λ v. none)
      (some (codes "ja"))
      ((codes "a", 0) ∷ (codes "b", 600000) ∷ [])
    ≡ Result.ok ([], codes "ja")
unfolding transcribe_pieces rest_cues wire_lang wire_accepts has_code trim check_pinned_lang
    cues_from_verbose
transcribed = refl

transcribe_pieces-Agrees_example :
    (codes "ja" ≡ codes "ja")
    × All {A = Text × ℕ}
        (λ piece. Agrees text_values (codes "ja") piece.0)
        ((codes "a", 0) ∷ (codes "b", 600000) ∷ [])
transcribe_pieces-Agrees_example =
    transcribe_pieces-Agrees text_values whole (λ v. none) (codes "ja") (codes "ja")
      ((codes "a", 0) ∷ (codes "b", 600000) ∷ []) [] (codes "ja") accepted transcribed
