-- ===== src/Lang/Reported.antt =====
-- `REPORTED_LANG_SPELLINGS` of src/lang.rs.
use asrsub.Prelude.{List, [], ◌∷◌}
use asrsub.Lang.Aliases.{row}
use asrsub.Text.{Text}

abbrev pub reported_lang_spellings : List (Text × Text)
reported_lang_spellings =
    row "cantonese" "yue"
    ∷ row "castilian" "es"
    ∷ row "farsi" "fa"
    ∷ row "flemish" "nl"
    ∷ row "malayalam" "ml"
    ∷ row "mandarin" "zh"
    ∷ row "tamil" "ta"
    ∷ row "amharic" "am"
    ∷ row "azerbaijani" "az"
    ∷ row "bengali" "bn"
    ∷ row "bosnian" "bs"
    ∷ row "bulgarian" "bg"
    ∷ row "burmese" "my"
    ∷ row "catalan" "ca"
    ∷ row "croatian" "hr"
    ∷ row "estonian" "et"
    ∷ row "galician" "gl"
    ∷ row "georgian" "ka"
    ∷ row "gujarati" "gu"
    ∷ row "hausa" "ha"
    ∷ row "icelandic" "is"
    ∷ row "kannada" "kn"
    ∷ row "kazakh" "kk"
    ∷ row "khmer" "km"
    ∷ row "lao" "lo"
    ∷ row "latvian" "lv"
    ∷ row "lithuanian" "lt"
    ∷ row "macedonian" "mk"
    ∷ row "malagasy" "mg"
    ∷ row "maori" "mi"
    ∷ row "marathi" "mr"
    ∷ row "mongolian" "mn"
    ∷ row "nepali" "ne"
    ∷ row "pashto" "ps"
    ∷ row "punjabi" "pa"
    ∷ row "serbian" "sr"
    ∷ row "sindhi" "sd"
    ∷ row "sinhala" "si"
    ∷ row "slovak" "sk"
    ∷ row "slovenian" "sl"
    ∷ row "somali" "so"
    ∷ row "sundanese" "su"
    ∷ row "swahili" "sw"
    ∷ row "tajik" "tg"
    ∷ row "tatar" "tt"
    ∷ row "telugu" "te"
    ∷ row "turkmen" "tk"
    ∷ row "urdu" "ur"
    ∷ row "uzbek" "uz"
    ∷ row "welsh" "cy"
    ∷ row "yoruba" "yo"
    ∷ row "armenian" "hy"
    ∷ []
