-- ===== src/Ledger.antt =====
-- src/pipeline_commit.rs: identities of ledger rows.
pub mod Digest
pub mod Files
pub mod Pair
pub mod Lines
pub mod Recorded
pub mod Committed
pub mod Atomic
use asrsub.Prelude.{Bool, true, false, ◌&&◌, List, [], Option, none, some, if◌then◌else◌, ◌==◌}
use asrsub.Text.{Text, codes, text_eq}
use asrsub.Report.{Bytes, Signed}
use asrsub.Json.{Json, str_field}
use asrsub.Lang.{or_else, normalize_lang}
use asrsub.Ledger.Digest.{parse_hex}

pub record LedgerIdentity : Type 0 where
  pub kind : Text
  pub episode_id : Signed
  pub language : Text
  pub artifact_sha256 : Bytes

abbrev pub signed_eq : Signed → Signed → Bool
signed_eq (Signed.pos a) (Signed.pos b) = a == b
signed_eq (Signed.negsuc a) (Signed.negsuc b) = a == b
signed_eq _ _ = false

abbrev pub identity_eq : LedgerIdentity → LedgerIdentity → Bool
identity_eq a b =
    text_eq a.kind b.kind
    && signed_eq a.episode_id b.episode_id
    && text_eq a.language b.language
    && text_eq a.artifact_sha256 b.artifact_sha256

module _ (J : Json) where
  abbrev kind_of : J.Value → Text
  kind_of row = elim (str_field J (codes "kind") row) [ some k ↦ k | none ↦ codes "series" ]

  abbrev id_of : J.Value → Option Signed
  id_of row =
      elim (or_else (J.get (codes "episode_id") row) (J.get (codes "sonarrEpisodeId") row)) [
        | some v ↦ J.as_i64 v
        | none ↦ none
      ]

  abbrev language_value : J.Value → Option Text
  language_value row = elim (or_else (J.get (codes "language") row) (J.get (codes "lang") row)) [
    | some v ↦ J.as_str v
    | none ↦ none
  ]

  abbrev language_of : J.Value → Text
  language_of row = elim (language_value row) [ some l ↦ normalize_lang l | none ↦ [] ]

  abbrev digest_of : J.Value → Option Bytes
  digest_of row = elim (str_field J (codes "artifact_sha256") row) [
    | some s ↦ parse_hex s
    | none ↦ none
  ]

  abbrev identity_of : Text → Text → Option Signed → Option Bytes → Option LedgerIdentity
  identity_of kind language (some id) (some digest) =
      some (record { kind = kind; episode_id = id; language = language; artifact_sha256 = digest })
  identity_of kind language _ _ = none

  unfoldable pub row_identity : J.Value → Option LedgerIdentity
  row_identity row =
      if J.is_object row
      then identity_of (kind_of row) (language_of row) (id_of row) (digest_of row)
      else none

  abbrev pub has_identity : LedgerIdentity → J.Value → Bool
  has_identity identity row = elim (row_identity row) [
    | some i ↦ identity_eq i identity
    | none ↦ false
  ]

  unfoldable pub rows_equal_ignoring_timestamp : J.Value → J.Value → Bool
  rows_equal_ignoring_timestamp left right =
      J.equal (J.remove (codes "ts") left) (J.remove (codes "ts") right)
