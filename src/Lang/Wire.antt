-- ===== src/Lang/Wire.antt =====
-- `WIRE_ACCEPTED_LANGS` of src/lang.rs: the codes that the endpoint accepts, with their names.
use asrsub.Prelude.{List, [], ◌∷◌}
use asrsub.Lang.Aliases.{row}
use asrsub.Text.{Text}

abbrev pub wire_accepted_langs : List (Text × Text)
wire_accepted_langs =
    row "af" "afrikaans"
    ∷ row "am" "amharic"
    ∷ row "ar" "arabic"
    ∷ row "as" "assamese"
    ∷ row "az" "azerbaijani"
    ∷ row "ba" "bashkir"
    ∷ row "be" "belarusian"
    ∷ row "bg" "bulgarian"
    ∷ row "bn" "bengali"
    ∷ row "bo" "tibetan"
    ∷ row "br" "breton"
    ∷ row "bs" "bosnian"
    ∷ row "ca" "catalan"
    ∷ row "cs" "czech"
    ∷ row "cy" "welsh"
    ∷ row "da" "danish"
    ∷ row "de" "german"
    ∷ row "el" "greek"
    ∷ row "en" "english"
    ∷ row "es" "spanish"
    ∷ row "et" "estonian"
    ∷ row "eu" "basque"
    ∷ row "fa" "persian"
    ∷ row "fi" "finnish"
    ∷ row "fo" "faroese"
    ∷ row "fr" "french"
    ∷ row "gl" "galician"
    ∷ row "gu" "gujarati"
    ∷ row "ha" "hausa"
    ∷ row "haw" "hawaiian"
    ∷ row "he" "hebrew"
    ∷ row "hi" "hindi"
    ∷ row "hr" "croatian"
    ∷ row "ht" "haitian creole"
    ∷ row "hu" "hungarian"
    ∷ row "hy" "armenian"
    ∷ row "id" "indonesian"
    ∷ row "is" "icelandic"
    ∷ row "it" "italian"
    ∷ row "ja" "japanese"
    ∷ row "jw" "javanese"
    ∷ row "ka" "georgian"
    ∷ row "kk" "kazakh"
    ∷ row "km" "khmer"
    ∷ row "kn" "kannada"
    ∷ row "ko" "korean"
    ∷ row "la" "latin"
    ∷ row "lb" "luxembourgish"
    ∷ row "ln" "lingala"
    ∷ row "lo" "lao"
    ∷ row "lt" "lithuanian"
    ∷ row "lv" "latvian"
    ∷ row "mg" "malagasy"
    ∷ row "mi" "maori"
    ∷ row "mk" "macedonian"
    ∷ row "ml" "malayalam"
    ∷ row "mn" "mongolian"
    ∷ row "mr" "marathi"
    ∷ row "ms" "malay"
    ∷ row "mt" "maltese"
    ∷ row "my" "myanmar"
    ∷ row "ne" "nepali"
    ∷ row "nl" "dutch"
    ∷ row "nn" "nynorsk"
    ∷ row "no" "norwegian"
    ∷ row "oc" "occitan"
    ∷ row "pa" "punjabi"
    ∷ row "pl" "polish"
    ∷ row "ps" "pashto"
    ∷ row "pt" "portuguese"
    ∷ row "ro" "romanian"
    ∷ row "ru" "russian"
    ∷ row "sa" "sanskrit"
    ∷ row "sd" "sindhi"
    ∷ row "si" "sinhala"
    ∷ row "sk" "slovak"
    ∷ row "sl" "slovenian"
    ∷ row "sn" "shona"
    ∷ row "so" "somali"
    ∷ row "sq" "albanian"
    ∷ row "sr" "serbian"
    ∷ row "su" "sundanese"
    ∷ row "sv" "swedish"
    ∷ row "sw" "swahili"
    ∷ row "ta" "tamil"
    ∷ row "te" "telugu"
    ∷ row "tg" "tajik"
    ∷ row "th" "thai"
    ∷ row "tk" "turkmen"
    ∷ row "tl" "tagalog"
    ∷ row "tr" "turkish"
    ∷ row "tt" "tatar"
    ∷ row "uk" "ukrainian"
    ∷ row "ur" "urdu"
    ∷ row "uz" "uzbek"
    ∷ row "vi" "vietnamese"
    ∷ row "yi" "yiddish"
    ∷ row "yo" "yoruba"
    ∷ row "yue" "cantonese"
    ∷ row "zh" "chinese"
    ∷ []
