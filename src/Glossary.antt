-- ===== src/Glossary.antt =====
-- src/glossary.rs: the names of a series that a prompt explains. The lower case of Unicode is a parameter, and
-- a map stands as the list of its entries in the order of its iteration.
use asrsub.Prelude.{
  ℕ, Bool, not, ◌&&◌, ◌||◌, List, [], ◌∷◌, ◌++◌, Option, none, some, if◌then◌else◌, is_nil, ltb,
  length, any, map, take,
}
use asrsub.Text.{Text, codes, text_eq, trim, join, split_whitespace, contains, nl}
use asrsub.Json.{Json, str_field}
use asrsub.Lang.{or_else}

-- `MAX_REFS`
abbrev pub max_refs : ℕ
max_refs = 15

pub record GlossaryEntry : Type 0 where
  pub ja : Text
  pub en : Text
  pub aliases : List Text
  pub kind : Text

abbrev pub text_entry : Text → Text → List Text → Text → Option GlossaryEntry
text_entry ja en aliases kind =
    if is_nil ja || is_nil en
    then none
    else some (record { ja = ja; en = en; aliases = aliases; kind = kind })

abbrev pub cons_some : {A : Type 0} → Option A → List A → List A
cons_some none rest = rest
cons_some (some a) rest = a ∷ rest

abbrev pub alias_list : List Text → Text
alias_list aliases = join (codes "; ") aliases

unfoldable pub entry_line : GlossaryEntry → Text
entry_line e =
    codes "- "
    ++ e.ja
    ++ codes " => "
    ++ e.en
    ++ (if is_nil e.aliases
        then codes " (" ++ e.kind ++ codes ")"
        else codes " (aliases: " ++ alias_list e.aliases ++ codes "; " ++ e.kind ++ codes ")")

-- The first line of the block
abbrev pub block_title : Text
block_title =
    codes "KNOWLEDGE "
    ++ 0x2014
      ∷ codes
          " official names for this series. When a Japanese form below appears (including aliases), translate it as its official English name:"

unfoldable pub render_block : List GlossaryEntry → Text
render_block entries =
    if is_nil entries then [] else join (nl ∷ []) (block_title ∷ map entry_line entries)

module _ (to_lowercase : Text → Text) where
  unfoldable pub norm_key : Text → Text
  norm_key s = join (b' ' ∷ []) (split_whitespace (to_lowercase (trim s)))

  -- The names, Japanese first, and the aliases
  abbrev pub surfaces : GlossaryEntry → List Text
  surfaces e = e.ja ∷ e.en ∷ e.aliases

  abbrev pub is_named : Text → GlossaryEntry → Bool
  is_named haystack e = any (λ s. not (is_nil s) && contains (to_lowercase s) haystack) (surfaces e)

  unfoldable pub named_in : Text → List GlossaryEntry → List GlossaryEntry
  named_in haystack [] = []
  named_in haystack (e ∷ more) =
      let rest = named_in haystack more in if is_named haystack e then e ∷ rest else rest

  abbrev pub enough : List GlossaryEntry → List GlossaryEntry → List GlossaryEntry
  enough entries matched = if ltb (length matched) 3 then entries else matched

  -- `matched_entries` of the entries of a series
  unfoldable pub matched_of : List GlossaryEntry → List Text → List GlossaryEntry
  matched_of entries cue_texts =
      let haystack = to_lowercase (join (nl ∷ []) cue_texts) in
      if is_nil entries || is_nil cue_texts || is_nil (trim haystack)
      then entries
      else enough entries (named_in haystack entries)

  module _ (J : Json) where
    abbrev pub strings : List J.Value → List Text
    strings [] = []
    strings (v ∷ more) = cons_some (J.as_str v) (strings more)

    abbrev pub aliases_of : J.Value → List Text
    aliases_of e = elim (J.get (codes "aliases") e) [
      | some a ↦ elim (J.as_array a) [ some items ↦ strings items | none ↦ [] ]
      | none ↦ []
    ]

    abbrev pub known_kind : Text → Text
    known_kind k =
        if text_eq k (codes "character") || text_eq k (codes "place") || text_eq k (codes "term")
        then k
        else codes "character"

    abbrev pub kind_of : J.Value → Text
    kind_of e = elim (str_field J (codes "kind") e) [
      | some k ↦ known_kind k
      | none ↦ codes "character"
    ]

    abbrev pub entry_of : J.Value → Option Text → Option Text → Option GlossaryEntry
    entry_of e (some ja) (some en) = text_entry ja en (aliases_of e) (kind_of e)
    entry_of e _ _ = none

    unfoldable pub listed_entries : List J.Value → List GlossaryEntry
    listed_entries [] = []
    listed_entries (e ∷ more) =
        cons_some (entry_of e (str_field J (codes "ja") e) (str_field J (codes "en") e))
          (listed_entries more)

    abbrev pub flat_entry : Text → Option Text → Option GlossaryEntry
    flat_entry ja none = none
    flat_entry ja (some en) =
        if text_eq ja (codes "entries") then none else text_entry ja en [] (codes "character")

    unfoldable pub flat_entries : List (Text × J.Value) → List GlossaryEntry
    flat_entries [] = []
    flat_entries ((ja, en) ∷ more) = cons_some (flat_entry ja (J.as_str en)) (flat_entries more)

    abbrev pub entry_list : J.Value → Option (List J.Value)
    entry_list raw = elim (J.get (codes "entries") raw) [ some e ↦ J.as_array e | none ↦ none ]

    abbrev pub flat_or_none : Option (List (Text × J.Value)) → List GlossaryEntry
    flat_or_none none = []
    flat_or_none (some fields) = flat_entries fields

    unfoldable pub entries_from_raw : J.Value → List GlossaryEntry
    entries_from_raw raw = elim (entry_list raw) [
      | some entries ↦ listed_entries entries
      | none ↦ flat_or_none (J.fields raw)
    ]

    abbrev pub find_raw : (Text → Bool) → List (Text × J.Value) → Option J.Value
    find_raw p [] = none
    find_raw p ((k, v) ∷ more) = let later = find_raw p more in if p k then some v else later

    -- The value of the key that is the title, or else of one that stands in it.
    unfoldable pub find_key : List (Text × J.Value) → Text → Option J.Value
    find_key raw series_title =
        let norm = norm_key series_title in
        if is_nil norm
        then none
        else or_else (find_raw (λ k. text_eq (norm_key k) norm) raw)
            (find_raw (λ k. contains (norm_key k) norm && not (is_nil (norm_key k))) raw)

    unfoldable pub entries : List (Text × J.Value) → Text → ℕ → List GlossaryEntry
    entries raw series_title most = elim (find_key raw series_title) [
      | some value ↦ take most (entries_from_raw value)
      | none ↦ []
    ]

    unfoldable pub knowledge_block_for_cues : List (Text × J.Value) → Text → List Text → ℕ → Text
    knowledge_block_for_cues raw series_title cue_texts most =
        render_block (matched_of (entries raw series_title most) cue_texts)

    abbrev parsed_fields : Option J.Value → List (Text × J.Value)
    parsed_fields none = []
    parsed_fields (some v) = elim (J.fields v) [ some fields ↦ fields | none ↦ [] ]

    -- The text of the file, where it can be read
    unfoldable pub load : Option Text → List (Text × J.Value)
    load none = []
    load (some text) = parsed_fields (J.from_str text)
