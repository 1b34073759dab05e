-- ===== src/Ledger/Digest.antt =====
-- Digests in hexadecimal, in src/pipeline_commit.rs and src/discord_state_lane.rs.
use asrsub.Prelude.{
  ℕ, ◌+◌, ◌-◌, ◌*◌, ◌/◌, ◌%◌, ◌<◌, ◌≡◌, refl, ap, ap₂, true, false, ◌&&◌, [], ◌∷◌, Option, none,
  some, if◌then◌else◌, length, leb, ◌==◌, All, arith,
}
use asrsub.Text.{Text}
use asrsub.Report.{Bytes}
use asrsub.Report.Codec.{hex, hex_digit}

-- `to_digit(16)`
abbrev pub hex_value : ℕ → Option ℕ
hex_value c =
    if leb b'0' c && leb c b'9'
    then some (c - b'0')
    else if leb b'a' c && leb c b'f'
    then some (c - b'a' + 10)
    else if leb b'A' c && leb c b'F'
    then some (c - b'A' + 10)
    else none

abbrev pub two_digits : Option ℕ → Option ℕ → Option ℕ
two_digits (some a) (some b) = some (a * 16 + b)
two_digits _ _ = none

-- `u8::from_str_radix` on two chars: a `+` in front is a sign.
unfoldable pub from_radix : ℕ → ℕ → Option ℕ
from_radix a b = if a == b'+' then hex_value b else two_digits (hex_value a) (hex_value b)

abbrev pub cons_byte : Option ℕ → Option Bytes → Option Bytes
cons_byte (some b) (some bs) = some (b ∷ bs)
cons_byte _ _ = none

unfoldable pub hex_pairs : Text → Option Bytes
hex_pairs [] = some []
hex_pairs (a ∷ []) = some []
hex_pairs (a ∷ b ∷ s) = cons_byte (from_radix a b) (hex_pairs s)

-- The length is that in bytes; a text with a char past ASCII is refused by its digits or its length
-- either way.
unfoldable pub parse_hex : Text → Option Bytes
parse_hex s = if length s == 64 then hex_pairs s else none

abbrev pub IsByte : ℕ → Type 0
IsByte b = b < 256

hex_digit_value :
    (n : ℕ) → n < 16 → (hex_value (hex_digit n) ≡ some n) × ((hex_digit n == b'+') ≡ false)
unfolding hex_digit
hex_digit_value n h = (ground arith, ground arith)

from_radix-hex_digit :
    (b : ℕ) → IsByte b → from_radix (hex_digit (b / 16)) (hex_digit (b % 16)) ≡ some b
unfolding from_radix
from_radix-hex_digit b h =
    let high = hex_digit_value (b / 16) (omega arith) in
    let low = hex_digit_value (b % 16) (omega arith) in
    rw (high.1, high.0, low.0) (ap some (omega arith))

hex_pairs-hex : (d : Bytes) → All IsByte d → hex_pairs (hex d) ≡ some d
unfolding hex_pairs hex from_radix
hex_pairs-hex [] h = refl
hex_pairs-hex (b ∷ d) h = ap₂ cons_byte (from_radix-hex_digit b h.0) (hex_pairs-hex d h.1)

length-hex : (d : Bytes) → length (hex d) ≡ 2 * length d
unfolding hex
length-hex [] = refl
length-hex (b ∷ d) = omega (arith, length-hex d)

-- A digest of 32 bytes, printed in hexadecimal, is read back as the same digest.
pub parse_hex-hex : (d : Bytes) → length d ≡ 32 → All IsByte d → parse_hex (hex d) ≡ some d
unfolding parse_hex
parse_hex-hex d l h = rw (is_long) (hex_pairs-hex d h)
  where
    is_long : (length (hex d) == 64) ≡ true
    is_long = let n = length-hex d in ground arith
