-- ===== src/Lang/Aliases.antt =====
-- `LANG_ALIASES` of src/lang.rs: the spellings that may pin a language.
use asrsub.Prelude.{String, List, [], ◌∷◌}
use asrsub.Text.{Text, codes}

-- A row of a table.
abbrev pub row : String → String → Text × Text
row a b = (codes a, codes b)

abbrev pub lang_aliases : List (Text × Text)
lang_aliases =
    row "ja" "ja"
    ∷ row "jp" "ja"
    ∷ row "jpn" "ja"
    ∷ row "japanese" "ja"
    ∷ row "en" "en"
    ∷ row "eng" "en"
    ∷ row "enm" "en"
    ∷ row "english" "en"
    ∷ row "id" "id"
    ∷ row "ind" "id"
    ∷ row "indonesian" "id"
    ∷ row "fr" "fr"
    ∷ row "fre" "fr"
    ∷ row "fra" "fr"
    ∷ row "french" "fr"
    ∷ row "de" "de"
    ∷ row "ger" "de"
    ∷ row "deu" "de"
    ∷ row "german" "de"
    ∷ row "es" "es"
    ∷ row "spa" "es"
    ∷ row "spanish" "es"
    ∷ row "it" "it"
    ∷ row "ita" "it"
    ∷ row "italian" "it"
    ∷ row "pt" "pt"
    ∷ row "por" "pt"
    ∷ row "portuguese" "pt"
    ∷ row "nl" "nl"
    ∷ row "dut" "nl"
    ∷ row "nld" "nl"
    ∷ row "dutch" "nl"
    ∷ row "ru" "ru"
    ∷ row "rus" "ru"
    ∷ row "russian" "ru"
    ∷ row "ko" "ko"
    ∷ row "kor" "ko"
    ∷ row "korean" "ko"
    ∷ row "zh" "zh"
    ∷ row "zho" "zh"
    ∷ row "chi" "zh"
    ∷ row "chinese" "zh"
    ∷ row "pl" "pl"
    ∷ row "pol" "pl"
    ∷ row "polish" "pl"
    ∷ row "tr" "tr"
    ∷ row "tur" "tr"
    ∷ row "turkish" "tr"
    ∷ row "ar" "ar"
    ∷ row "ara" "ar"
    ∷ row "arabic" "ar"
    ∷ row "hi" "hi"
    ∷ row "hin" "hi"
    ∷ row "hindi" "hi"
    ∷ row "th" "th"
    ∷ row "tha" "th"
    ∷ row "thai" "th"
    ∷ row "vi" "vi"
    ∷ row "vie" "vi"
    ∷ row "vietnamese" "vi"
    ∷ row "sv" "sv"
    ∷ row "swe" "sv"
    ∷ row "swedish" "sv"
    ∷ row "no" "no"
    ∷ row "nor" "no"
    ∷ row "norwegian" "no"
    ∷ row "da" "da"
    ∷ row "dan" "da"
    ∷ row "danish" "da"
    ∷ row "fi" "fi"
    ∷ row "fin" "fi"
    ∷ row "finnish" "fi"
    ∷ row "cs" "cs"
    ∷ row "ces" "cs"
    ∷ row "cze" "cs"
    ∷ row "czech" "cs"
    ∷ row "el" "el"
    ∷ row "ell" "el"
    ∷ row "gre" "el"
    ∷ row "greek" "el"
    ∷ row "he" "he"
    ∷ row "heb" "he"
    ∷ row "hebrew" "he"
    ∷ row "hu" "hu"
    ∷ row "hun" "hu"
    ∷ row "hungarian" "hu"
    ∷ row "ro" "ro"
    ∷ row "ron" "ro"
    ∷ row "rum" "ro"
    ∷ row "romanian" "ro"
    ∷ row "uk" "uk"
    ∷ row "ukr" "uk"
    ∷ row "ukrainian" "uk"
    ∷ row "fa" "fa"
    ∷ row "fas" "fa"
    ∷ row "per" "fa"
    ∷ row "persian" "fa"
    ∷ row "ms" "ms"
    ∷ row "msa" "ms"
    ∷ row "may" "ms"
    ∷ row "malay" "ms"
    ∷ row "fil" "tl"
    ∷ row "tgl" "tl"
    ∷ row "tagalog" "tl"
    ∷ row "filipino" "tl"
    ∷ row "jv" "jw"
    ∷ []
