-- ===== src/Tests/GuardTests.antt =====
-- Runs of the text guards.
use asrsub.Prelude.{List, [], ◌∷◌}
use asrsub.Text.{Text, codes}
use asrsub.Srt.Guard.{guard_foreign_lines}
use asrsub.Srt.Guard.Collapse.{KanaKept, guard_foreign_lines-KanaKept}
use asrsub.Tests.SrtTests.{whole}

-- "あa"
abbrev kana_line : Text
kana_line = 0x3042 ∷ b'a' ∷ []

abbrev mixed_lines : List Text
mixed_lines = kana_line ∷ codes "no" ∷ []

guard_foreign_lines-KanaKept_example :
    KanaKept whole mixed_lines (guard_foreign_lines whole mixed_lines [])
guard_foreign_lines-KanaKept_example = guard_foreign_lines-KanaKept whole mixed_lines []
