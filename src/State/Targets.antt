-- ===== src/State/Targets.antt =====
-- src/pipeline_targets.rs: the targets that a registry row and a done state row attest.
use asrsub.Prelude.{Bool, false, ◌&&◌, List, [], ◌∷◌, Option, none, some, if◌then◌else◌, any}
use asrsub.Text.{Text, codes, text_eq}
use asrsub.Report.{Bytes, Signed}
use asrsub.Json.{Json, original_language}
use asrsub.Lang.{normalize_lang}
use asrsub.Ledger.{signed_eq}
use asrsub.Ledger.Digest.{parse_hex}
use asrsub.State.{keep_some}
use asrsub.State.Rows.{StateEntry, RegistryRow, or_empty, same_text}

pub record TargetKey : Type 0 where
  pub kind : Text
  pub episode_id : Signed
  pub language : Text

pub record VerifiedTarget : Type 0 where
  pub target_path : Text
  pub artifact_sha256 : Bytes

abbrev pub key_eq : TargetKey → TargetKey → Bool
key_eq a b =
    text_eq a.kind b.kind && signed_eq a.episode_id b.episode_id && text_eq a.language b.language

abbrev pub filter_map : {A B : Type 0} → (A → Option B) → List A → List B
filter_map f [] = []
filter_map f (a ∷ more) = keep_some (f a) (filter_map f more)

abbrev pub or_series : Option Text → Text
or_series none = codes "series"
or_series (some kind) = kind

abbrev pub same_digest : Option Bytes → Bytes → Bool
same_digest none b = false
same_digest (some a) b = text_eq a b

module _ (J : Json) (sha256 : Bytes → Bytes) where
  abbrev pub digest_text : Option J.Value → Option Text
  digest_text none = none
  digest_text (some value) = J.as_str value

  abbrev pub parse_text : Option Text → Option Bytes
  parse_text none = none
  parse_text (some text) = parse_hex text

  unfoldable pub parse_digest : Option J.Value → Option Bytes
  parse_digest value = parse_text (digest_text value)

  abbrev pub digest_file : (Text → Option Bytes) → Text → Option Bytes
  digest_file read path = elim (read path) [ some bytes ↦ some (sha256 bytes) | none ↦ none ]

  abbrev pub registry_kind : RegistryRow J.Value → Text
  registry_kind row = or_series (digest_text (row.extra (codes "kind")))

  abbrev pub keyed : Text → Option Signed → Text → Option Bytes → Option (TargetKey × Bytes)
  keyed kind (some id) language (some digest) =
      some (record { kind = kind; episode_id = id; language = language }, digest)
  keyed kind _ language _ = none

  unfoldable pub done_key : StateEntry J.Value → Option (TargetKey × Bytes)
  done_key row =
      if same_text row.status (some (codes "done"))
      then keyed (or_series row.kind) row.episode_id (normalize_lang (or_empty row.language))
          (parse_digest (row.extra (codes "artifact_sha256")))
      else none

  abbrev pub attested : List (TargetKey × Bytes) → TargetKey × Bytes → Bool
  attested done entry = any (λ d. key_eq d.0 entry.0 && text_eq d.1 entry.1) done

  abbrev pub admitted :
      (Text → Option Bytes)
      → List (TargetKey × Bytes)
      → Text
      → Option (TargetKey × Bytes)
      → Option (TargetKey × VerifiedTarget)
  admitted read done path none = none
  admitted read done path (some entry) =
      if same_digest (digest_file read path) entry.1 && attested done entry
      then some (entry.0, record { target_path = path; artifact_sha256 = entry.1 })
      else none

  unfoldable pub verify_row :
      (Text → Bool)
      → (Text → Option Bytes)
      → List (TargetKey × Bytes)
      → RegistryRow J.Value
      → Option (TargetKey × VerifiedTarget)
  verify_row is_file read done row = elim row.target_path [
    | none ↦ none
    | some path ↦
        if is_file path
        then admitted read done path (
            keyed (registry_kind row) row.episode_id (normalize_lang (or_empty row.lang))
              (parse_digest (row.extra (codes "artifact_sha256"))))
        else none
  ]

  -- The entries in the order in which they go into the map.
  unfoldable pub verified_targets :
      (Text → Bool)
      → (Text → Option Bytes)
      → List (RegistryRow J.Value)
      → List (StateEntry J.Value)
      → List (TargetKey × VerifiedTarget)
  verified_targets is_file read registry_rows state_rows =
      filter_map (verify_row is_file read (filter_map done_key state_rows)) registry_rows

  abbrev pub movie_original_lang : J.Value → Option Text
  movie_original_lang movie = elim (J.get (codes "originalLanguage") movie) [
    | some value ↦ original_language J value
    | none ↦ none
  ]

-- A later entry of a key replaces the earlier.
unfoldable pub find_target : TargetKey → List (TargetKey × VerifiedTarget) → Option VerifiedTarget
find_target key [] = none
find_target key ((k, v) ∷ more) = elim (find_target key more) [
  | some later ↦ some later
  | none ↦ if key_eq k key then some v else none
]
