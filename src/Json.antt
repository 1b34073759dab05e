-- ===== src/Json.antt =====
-- What the program uses of the `serde_json` crate, which is not part of the repository: a type of
-- values with the operations named below. Other modules take one such record as a parameter.
use asrsub.Prelude.{ℕ, List, Bool, Option, none, some}
use asrsub.Text.{Text, trim}
use asrsub.Report.{Bytes, Signed}
use asrsub.Prelude.{is_nil, if◌then◌else◌}

pub record Json : Type 1 where
  pub Value : Type 0
  -- `as_object().is_some()`
  pub is_object : Value → Bool
  -- `get`, which gives nothing on a value that is no object
  pub get : Text → Value → Option Value
  pub as_str : Value → Option Text
  pub as_array : Value → Option (List Value)
  -- `as_object`, with the fields in the order of the iteration
  pub fields : Value → Option (List (Text × Value))
  -- the number of the fields of an object
  pub field_count : Value → ℕ
  pub is_null : Value → Bool
  pub as_bool : Value → Option Bool
  pub as_u64 : Value → Option ℕ
  pub as_i64 : Value → Option Signed
  -- `as_object_mut` with `remove`; other values stay
  pub remove : Text → Value → Value
  -- `==`
  pub equal : Value → Value → Bool
  -- `from_str` of a line
  pub from_str : Text → Option Value
  -- `to_string`
  pub to_string : Value → Option Text
  -- `to_vec`
  pub to_vec : Value → Option Bytes

module _ (J : Json) where
  abbrev pub str_field : Text → J.Value → Option Text
  str_field key value = elim (J.get key value) [ some v ↦ J.as_str v | none ↦ none ]

  abbrev not_blank : Text → Option Text
  not_blank s = if is_nil s then none else some s

  abbrev name_text : J.Value → Option Text
  name_text value = elim (J.as_str value) [
    | some s ↦ some s
    | none ↦ str_field (asrsub.Text.codes "name") value
  ]

  -- `original_language` of src/lang.rs
  unfoldable pub original_language : J.Value → Option Text
  original_language value = elim (name_text value) [ none ↦ none | some s ↦ not_blank (trim s) ]
