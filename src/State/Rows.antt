-- ===== src/State/Rows.antt =====
-- src/state.rs: the rows of the registry and of the state, and their removal.
use asrsub.Prelude.{
  Bool, true, false, not, ◌||◌, List, [], ◌∷◌, Option, none, some, if◌then◌else◌, is_nil, length,
  ◌==◌,
}
use asrsub.Text.{Text, text_eq}
use asrsub.Report.{Signed}
use asrsub.Lang.{normalize_lang}
use asrsub.Ledger.{signed_eq}
use asrsub.Ledger.Files.{LedgerFile}
use asrsub.State.{load_jsonl, rewrite_jsonl}

-- `extra` holds the fields of a row that have no name here.
pub record StateEntry (Value : Type 0) : Type 0 where
  pub episode_id : Option Signed
  pub language : Option Text
  pub status : Option Text
  pub kind : Option Text
  pub ts : Option Text
  pub extra : Text → Option Value

pub record RegistryRow (Value : Type 0) : Type 0 where
  pub stem : Option Text
  pub lang : Option Text
  pub episode_id : Option Signed
  pub source : Option Text
  pub source_kind : Option Text
  pub source_path : Option Text
  pub target_path : Option Text
  pub ts : Option Text
  pub extra : Text → Option Value

pub record ActionRecord : Type 0 where
  pub ts : Option Text
  pub action_type : Option Text
  pub episode_id : Option Signed
  pub language : Option Text
  pub kind : Option Text
  pub source : Option Text
  pub note : Option Text

abbrev pub or_empty : Option Text → Text
or_empty none = []
or_empty (some t) = t

abbrev pub same_text : Option Text → Option Text → Bool
same_text (some a) (some b) = text_eq a b
same_text _ _ = false

abbrev pub same_id : Option Signed → Option Signed → Bool
same_id (some a) (some b) = signed_eq a b
same_id _ _ = false

abbrev pub filter : {A : Type 0} → (A → Bool) → List A → List A
filter p [] = []
filter p (a ∷ more) = let rest = filter p more in if p a then a ∷ rest else rest

module _ {Value : Type 0} where
  -- The rows that a removal leaves.
  unfoldable pub is_kept : Option Text → Option Signed → Text → RegistryRow Value → Bool
  is_kept stem episode_id norm row =
      if not (text_eq (normalize_lang (or_empty row.lang)) norm)
      then true
      else not (same_text row.stem stem || same_id row.episode_id episode_id)

  module _ (from_str : Text → Option (RegistryRow Value))
      (to_string : RegistryRow Value → Option Text) where
    abbrev pub rewritten :
        Bool → List (RegistryRow Value) → List (RegistryRow Value) → LedgerFile → Bool × LedgerFile
    rewritten has_renamed rows kept l =
        if is_nil rows || length kept == length rows
        then (false, l)
        else rewrite_jsonl to_string has_renamed kept l

    -- Whether rows were removed, and the file then.
    unfoldable pub registry_delete :
        Bool → Bool → Option Text → Option Signed → Text → LedgerFile → Bool × LedgerFile
    registry_delete readable has_renamed stem episode_id lang l =
        let rows = load_jsonl from_str readable l in
        rewritten has_renamed rows (filter (is_kept stem episode_id (normalize_lang lang)) rows) l
