-- ===== src/Tests/LangTests.antt =====
-- Runs of the theorems on languages and sidecar names.
use asrsub.Prelude.{◌≡◌, refl, true, none}
use asrsub.Text.{codes, trim}
use asrsub.Lang.{
  normalize_lang, normalize_reported_lang, identity_accepts, wire_accepts, has_code, open_group,
  strip_trailing_qualifier,
}
use asrsub.Lang.Sidecar.{
  has_text, canonical_code, canonical_target_sidecar, sidecar_paths,
  replaceable_target_sidecar_paths,
}
use asrsub.Lang.Idempotent.{normalize_lang_idem}
use asrsub.Lang.Strip.{wire_accepts-identity_accepts, strip_trailing_qualifier-stops}
use asrsub.Lang.Paths.{IsUnique, replaceable_target_sidecar_paths-IsUnique}
use asrsub.Lang.Canonical.{Settled, canonical_code-Settled}

normalize_lang_idem_example :
    (normalize_lang (normalize_lang (codes "English (US)")) ≡ normalize_lang (codes "English (US)"))
    × (normalize_lang (normalize_reported_lang (codes "English (US)"))
        ≡ normalize_reported_lang (codes "English (US)"))
normalize_lang_idem_example = normalize_lang_idem (codes "English (US)")

wire_accepts-identity_accepts_example : identity_accepts (trim (codes " ja ")) ≡ true
wire_accepts-identity_accepts_example =
    wire_accepts-identity_accepts (codes " ja ") (unfold wire_accepts has_code trim in refl)

strip_trailing_qualifier-stops_example :
    open_group (strip_trailing_qualifier (codes "Chinese (Hant) [TW]")) ≡ none
strip_trailing_qualifier-stops_example =
    strip_trailing_qualifier-stops (codes "Chinese (Hant) [TW]")

replaceable_target_sidecar_paths-IsUnique_example :
    (has_text
        (canonical_target_sidecar (codes "/m/e1") (codes "eng"))
        (sidecar_paths (codes "/m/e1") (codes "eng"))
      ≡ true)
    × (has_text
          (canonical_target_sidecar (codes "/m/e1") (normalize_lang (codes "eng")))
          (replaceable_target_sidecar_paths (codes "/m/e1") (codes "eng"))
        ≡ true)
    × IsUnique (replaceable_target_sidecar_paths (codes "/m/e1") (codes "eng"))
replaceable_target_sidecar_paths-IsUnique_example =
    replaceable_target_sidecar_paths-IsUnique (codes "/m/e1") (codes "eng")

canonical_code-Settled_example : Settled (canonical_code (codes "eng"))
canonical_code-Settled_example = canonical_code-Settled (codes "eng")
