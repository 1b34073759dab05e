-- ===== src/Asr.antt =====
-- src/asr.rs: the choice of the audio track, the language of a request and of its answer, and the
-- requests to the Whisper endpoints. The child processes and the HTTP client are not modelled; what
-- they answer is an argument.
pub mod Choice
pub mod Carried
pub mod Request
pub mod Pinned
use asrsub.Prelude.{
  ℕ, ◌+◌, ◌≡◌, Bool, true, false, not, ◌&&◌, ◌||◌, List, [], ◌∷◌, ◌++◌, Option, none, some,
  if◌then◌else◌, is_nil, is_some, leb, length, all, any, map,
}
use asrsub.Text.{Text, codes, text_eq, trim, contains}
use asrsub.Text.Decimal.{to_string}
use asrsub.Lang.{
  or_else, normalize_lang, normalize_reported_lang, identity_accepts, wire_accepts,
  is_uncertainty_marker, ascii_lower,
}
use asrsub.Report.{Result, and_then}
use asrsub.Json.{Json, str_field}

pub record AudioStream : Type 0 where
  pub index : ℕ
  pub language : Option Text
  pub title : Option Text

pub record AudioChoice : Type 0 where
  pub stream_index : ℕ
  pub asr_lang : Option Text
  pub needs_translate : Bool

abbrev pub filter_option : {A : Type 0} → (A → Bool) → Option A → Option A
filter_option p none = none
filter_option p (some a) = if p a then some a else none

abbrev pub map_option : {A B : Type 0} → (A → B) → Option A → Option B
map_option f none = none
map_option f (some a) = some (f a)

abbrev pub text_or : Text → Option Text → Text
text_or default none = default
text_or default (some t) = t

-- `wire_lang`, and `wire_pin` of a choice but for the trim
unfoldable pub wire_lang : Option Text → Option Text
wire_lang lang = filter_option wire_accepts (map_option trim lang)

unfoldable pub wire_pin : AudioChoice → Option Text
wire_pin choice = filter_option wire_accepts choice.asr_lang

unfoldable pub cache_key : AudioChoice → Text
cache_key choice = text_or (codes "detect@" ++ to_string choice.stream_index) choice.asr_lang

-- Of the chars that `to_lowercase` changes only the ASCII capitals matter to the search, since the
-- words searched for are ASCII and have no `k`.
unfoldable pub is_commentary : AudioStream → Bool
is_commentary s =
    let hay = map ascii_lower (text_or [] s.language ++ b' ' ∷ text_or [] s.title) in
    any (λ word. contains word hay)
      (codes "commentary"
        ∷ codes "comment"
        ∷ codes "description"
        ∷ codes "descriptive"
        ∷ codes "sdh"
        ∷ [])

-- The language that the tag names, if it names one.
unfoldable pub named : AudioStream → Option Text
named s = filter_option identity_accepts (map_option normalize_lang s.language)

-- `Some(x) == y` of the option
abbrev pub is_text : Text → Option Text → Bool
is_text want none = false
is_text want (some t) = text_eq t want

abbrev pub find : (AudioStream → Bool) → List AudioStream → Option AudioStream
find p [] = none
find p (s ∷ more) = let later = find p more in if p s then some s else later

abbrev pub is_wanted : Text → AudioStream → Bool
is_wanted want s = not (is_commentary s) && is_text want (named s)

abbrev pub is_unnamed_or_en : AudioStream → Bool
is_unnamed_or_en s =
    not (is_commentary s) && (not (is_some (named s)) || is_text (codes "en") (named s))

abbrev pub find_named : List AudioStream → Option Text → Option AudioStream
find_named streams none = none
find_named streams (some want) = find (is_wanted want) streams

-- A blank target is none.
abbrev pub target_of : Text → Option Text
target_of target_lang = filter_option (λ t. not (is_nil t)) (some (normalize_lang target_lang))

-- The original language, where it is not blank and not the target
abbrev pub other_original : Option Text → Option Text → Option Text
other_original original target =
    filter_option (λ o. not (is_nil o) && not (is_text o target))
      (map_option normalize_lang original)

unfoldable pub pick : List AudioStream → Option Text → Option Text → Option AudioStream
pick streams target original = or_else (find_named streams target) (
    or_else (find_named streams (other_original original target)) (
      or_else (find (is_wanted (codes "ja")) streams) (
        or_else (find is_unnamed_or_en streams)
          (or_else (find (λ s. not (is_commentary s)) streams) (find (λ s. true) streams)))))

abbrev pub differs_from : Option Text → Option Text → Bool
differs_from target none = true
differs_from target (some l) = not (is_text l target)

abbrev pub choice_of : Option Text → AudioStream → AudioChoice
choice_of target picked = record {
  stream_index = picked.index;
  asr_lang = named picked;
  needs_translate = differs_from target (named picked);
}

unfoldable pub choose_source : List AudioStream → Text → Option Text → Option AudioChoice
choose_source streams target_lang original_lang =
    map_option (choice_of (target_of target_lang))
      (pick streams (target_of target_lang) original_lang)

pub data AsrError : Type 0 where
  -- no `language` in the answer
  no_language : AsrError
  -- the value that names no language
  unusable : Text → AsrError
  -- the pin and what was reported
  mismatch : Text → Text → AsrError
  -- no endpoint, and all endpoints failed
  not_configured : AsrError
  all_failed : AsrError
  undecodable : AsrError
  circuit_open : AsrError
  unreadable : AsrError

unfoldable pub whisper_text_fields : Text → Option Text → List (Text × Text)
whisper_text_fields model lang =
    let fixed = (codes "model", model) ∷ (codes "response_format", codes "verbose_json") ∷ [] in
    elim (wire_lang lang) [ some l ↦ fixed ++ (codes "language", l) ∷ [] | none ↦ fixed ]

module _ (J : Json) where
  unfoldable pub detected_lang : J.Value → Result AsrError Text
  detected_lang v =
      let raw = trim (text_or [] (str_field J (codes "language") v)) in
      let code = normalize_reported_lang raw in
      if is_nil raw
      then Result.err AsrError.no_language
      else if (leb 2 (length code) && leb (length code) 3)
          && all (λ c. leb b'a' c && leb c b'z') code
          && not (is_uncertainty_marker code)
      then Result.ok code
      else Result.err (AsrError.unusable raw)

  unfoldable pub effective_lang : Option Text → J.Value → Result AsrError Text
  effective_lang (some pinned) v = Result.ok pinned
  effective_lang none v = detected_lang v

  abbrev pub compare_pin : Text → Option Text → Result AsrError Unit
  compare_pin pinned none = Result.ok tt
  compare_pin pinned (some reported) =
      let got = normalize_reported_lang reported in
      if is_nil got || text_eq got pinned
      then Result.ok tt
      else Result.err (AsrError.mismatch pinned got)

  unfoldable pub check_pinned_lang : Text → J.Value → Result AsrError Unit
  check_pinned_lang pinned v = compare_pin pinned (str_field J (codes "language") v)
