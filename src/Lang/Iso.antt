-- ===== src/Lang/Iso.antt =====
-- `REPORTED_LANG_ISO_SPELLINGS` of src/lang.rs.
use asrsub.Prelude.{List, [], ◌∷◌}
use asrsub.Lang.Aliases.{row}
use asrsub.Text.{Text}

abbrev pub reported_lang_iso_spellings : List (Text × Text)
reported_lang_iso_spellings =
    row "afr" "af"
    ∷ row "alb" "sq"
    ∷ row "amh" "am"
    ∷ row "arm" "hy"
    ∷ row "asm" "as"
    ∷ row "aze" "az"
    ∷ row "bak" "ba"
    ∷ row "baq" "eu"
    ∷ row "bel" "be"
    ∷ row "ben" "bn"
    ∷ row "bod" "bo"
    ∷ row "bos" "bs"
    ∷ row "bre" "br"
    ∷ row "bul" "bg"
    ∷ row "bur" "my"
    ∷ row "cat" "ca"
    ∷ row "cym" "cy"
    ∷ row "est" "et"
    ∷ row "eus" "eu"
    ∷ row "fao" "fo"
    ∷ row "geo" "ka"
    ∷ row "glg" "gl"
    ∷ row "guj" "gu"
    ∷ row "hat" "ht"
    ∷ row "hau" "ha"
    ∷ row "hrv" "hr"
    ∷ row "hye" "hy"
    ∷ row "ice" "is"
    ∷ row "isl" "is"
    ∷ row "jav" "jw"
    ∷ row "kan" "kn"
    ∷ row "kat" "ka"
    ∷ row "kaz" "kk"
    ∷ row "khm" "km"
    ∷ row "lat" "la"
    ∷ row "lav" "lv"
    ∷ row "lin" "ln"
    ∷ row "lit" "lt"
    ∷ row "ltz" "lb"
    ∷ row "mac" "mk"
    ∷ row "mal" "ml"
    ∷ row "mao" "mi"
    ∷ row "mar" "mr"
    ∷ row "mkd" "mk"
    ∷ row "mlg" "mg"
    ∷ row "mlt" "mt"
    ∷ row "mon" "mn"
    ∷ row "mri" "mi"
    ∷ row "mya" "my"
    ∷ row "nep" "ne"
    ∷ row "nno" "nn"
    ∷ row "oci" "oc"
    ∷ row "pan" "pa"
    ∷ row "pus" "ps"
    ∷ row "san" "sa"
    ∷ row "sin" "si"
    ∷ row "slk" "sk"
    ∷ row "slo" "sk"
    ∷ row "slv" "sl"
    ∷ row "sna" "sn"
    ∷ row "snd" "sd"
    ∷ row "som" "so"
    ∷ row "sqi" "sq"
    ∷ row "srp" "sr"
    ∷ row "sun" "su"
    ∷ row "swa" "sw"
    ∷ row "tam" "ta"
    ∷ row "tat" "tt"
    ∷ row "tel" "te"
    ∷ row "tgk" "tg"
    ∷ row "tib" "bo"
    ∷ row "tuk" "tk"
    ∷ row "urd" "ur"
    ∷ row "uzb" "uz"
    ∷ row "wel" "cy"
    ∷ row "yid" "yi"
    ∷ row "yor" "yo"
    ∷ []
