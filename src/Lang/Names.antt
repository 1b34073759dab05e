-- ===== src/Lang/Names.antt =====
-- The cases of `display_name` of src/lang.rs.
use asrsub.Prelude.{List, [], ◌∷◌}
use asrsub.Lang.Aliases.{row}
use asrsub.Text.{Text}

abbrev pub display_names : List (Text × Text)
display_names =
    row "id" "Indonesian"
    ∷ row "en" "English"
    ∷ row "ja" "Japanese"
    ∷ row "fr" "French"
    ∷ row "de" "German"
    ∷ row "es" "Spanish"
    ∷ row "it" "Italian"
    ∷ row "pt" "Portuguese"
    ∷ row "nl" "Dutch"
    ∷ row "ru" "Russian"
    ∷ row "ko" "Korean"
    ∷ row "zh" "Chinese"
    ∷ row "pl" "Polish"
    ∷ row "tr" "Turkish"
    ∷ row "ar" "Arabic"
    ∷ row "hi" "Hindi"
    ∷ row "th" "Thai"
    ∷ row "vi" "Vietnamese"
    ∷ row "sv" "Swedish"
    ∷ row "no" "Norwegian"
    ∷ row "da" "Danish"
    ∷ row "fi" "Finnish"
    ∷ row "cs" "Czech"
    ∷ row "el" "Greek"
    ∷ row "he" "Hebrew"
    ∷ row "hu" "Hungarian"
    ∷ row "ro" "Romanian"
    ∷ row "uk" "Ukrainian"
    ∷ row "fa" "Persian"
    ∷ row "ms" "Malay"
    ∷ row "fil" "Filipino"
    ∷ row "tl" "Filipino"
    ∷ row "ta" "Tamil"
    ∷ row "ml" "Malayalam"
    ∷ row "yue" "Cantonese"
    ∷ row "jw" "Javanese"
    ∷ row "ln" "Lingala"
    ∷ []
