-- ===== src/Text/Decimal.antt =====
-- `to_string`, zero padding and `parse` of unsigned integers.
use asrsub.Prelude.{
  ℕ, zero, suc, ◌+◌, ◌-◌, ◌*◌, ◌/◌, ◌%◌, ◌≤◌, ◌<◌, ◌≡◌, refl, ap, ◌∙◌, true, false, ◌&&◌, [], ◌∷◌,
  ◌++◌, Option, none, some, arith, ltb, leb, ◌==◌, if◌then◌else◌, dec_lt, length, length-append,
  length-replicate, replicate, All, All-append, ◌≢◌, le→ltb, lt→ltb,
}
use asrsub.Text.{Text}

dec_fuel : ℕ → ℕ → Text
dec_fuel zero n = (b'0' + n) ∷ []
dec_fuel (suc k) n = elim (ltb 9 n) [
  | true ↦ dec_fuel k (n / 10) ++ (b'0' + n % 10) ∷ []
  | false ↦ (b'0' + n) ∷ []
]

-- `n.to_string()`. As many rounds as `n` are enough: `dec_fuel-enough`.
unfoldable pub to_string : ℕ → Text
unfolding dec_fuel
to_string n = dec_fuel n n

-- `format!("{n:0w}")`
unfoldable pub pad_left : ℕ → ℕ → Text
unfolding to_string
pad_left w n = replicate (w - length (to_string n)) b'0' ++ to_string n

-- The digits of `from_str_radix(_, 10)` with checked arithmetic at a type with the given maximum.
unfoldable pub parse_digits : ℕ → ℕ → Text → Option ℕ
parse_digits most acc [] = some acc
parse_digits most acc (c ∷ s) =
    if leb b'0' c && leb c b'9' && leb (acc * 10 + (c - b'0')) most
    then parse_digits most (acc * 10 + (c - b'0')) s
    else none

-- `parse::<u…>()`: one `+` may lead, and at least one digit is wanted.
unfoldable pub parse_uint : ℕ → Text → Option ℕ
unfolding parse_digits
parse_uint most [] = none
parse_uint most (c ∷ []) = if c == b'+' then none else parse_digits most 0 (c ∷ [])
parse_uint most (c ∷ d ∷ s) =
    if c == b'+' then parse_digits most 0 (d ∷ s) else parse_digits most 0 (c ∷ d ∷ s)

abbrev pub IsDigit : ℕ → Type 0
IsDigit c = (b'0' ≤ c) × (c ≤ b'9')

dec_fuel-agree : (k l n : ℕ) → n ≤ k → n ≤ l → dec_fuel k n ≡ dec_fuel l n
unfolding dec_fuel
dec_fuel-agree zero zero n h p = refl
dec_fuel-agree zero (suc l) n h p = ground arith
dec_fuel-agree (suc k) zero n h p = ground arith
dec_fuel-agree (suc k) (suc l) n h p = ground (arith, dec_fuel-agree k l (n / 10))

dec_fuel-enough : (k n : ℕ) → n ≤ k → dec_fuel k n ≡ dec_fuel n n
dec_fuel-enough k n h = dec_fuel-agree k n n h (omega arith)

pub to_string_lem :
    (n : ℕ)
    → to_string n
      ≡ (if ltb 9 n then to_string (n / 10) ++ (b'0' + n % 10) ∷ [] else (b'0' + n) ∷ [])
unfolding to_string
to_string_lem zero = refl
to_string_lem (suc n) = ground (arith, dec_fuel-enough n (suc n / 10) (omega arith))

-- Strong induction over the digits.
digits_induction :
    (P : ℕ → Type 0)
    → ((n : ℕ) → n < 10 → P n)
    → ((n : ℕ) → 9 < n → P (n / 10) → P n)
    → (k n : ℕ) → n ≤ k
    → P n
digits_induction P small step zero n h = small n (omega arith)
digits_induction P small step (suc k) n h = elim (dec_lt 9 n) [
  | yes p ↦ step n p (digits_induction P small step k (n / 10) (omega arith))
  | no p ↦ small n (omega arith)
]

to_string-small : (n : ℕ) → n < 10 → to_string n ≡ (b'0' + n) ∷ []
to_string-small n h = to_string_lem n ∙ rw (le→ltb 9 n (omega arith)) refl

to_string-large : (n : ℕ) → 9 < n → to_string n ≡ to_string (n / 10) ++ (b'0' + n % 10) ∷ []
to_string-large n h = to_string_lem n ∙ rw (lt→ltb 9 n h) refl

pub to_string-IsDigit : (n : ℕ) → All IsDigit (to_string n)
to_string-IsDigit n =
    digits_induction (λ m. All IsDigit (to_string m))
      (λ m h. rw (to_string-small m h) (omega arith))
      (λ m h ih.
        rw (to_string-large m h) (All-append IsDigit (to_string (m / 10)) _ ih (omega arith)))
      n n (omega arith)

pub to_string-eq-cons : (n : ℕ) → (c : ℕ) × (s : Text) × (to_string n ≡ c ∷ s)
to_string-eq-cons n =
    digits_induction (λ m. (c : ℕ) × (s : Text) × (to_string m ≡ c ∷ s))
      (λ m h. (b'0' + m, [], to_string-small m h))
      (λ m h ih. (
        ih.0,
        ih.1 ++ (b'0' + m % 10) ∷ [],
        to_string-large m h ∙ ap (λ t. t ++ (b'0' + m % 10) ∷ []) ih.2,
      ))
      n n (omega arith)

parse_digits-append :
    (most acc v : ℕ) (s t : Text)
    → parse_digits most acc s ≡ some v
    → parse_digits most acc (s ++ t) ≡ parse_digits most v t
unfolding parse_digits
parse_digits-append most acc v [] t h = ground arith
parse_digits-append most acc v (c ∷ s) t h =
    ground (arith, parse_digits-append most (acc * 10 + (c - b'0')) v s t)

parse_digits-digit :
    (most n d : ℕ)
    → d < 10
    → n * 10 + d ≤ most
    → parse_digits most n ((b'0' + d) ∷ []) ≡ some (n * 10 + d)
unfolding parse_digits
parse_digits-digit most n d h le = ground arith

parse_digits-to_string : (most n : ℕ) → n ≤ most → parse_digits most 0 (to_string n) ≡ some n
parse_digits-to_string most n =
    digits_induction (λ m. m ≤ most → parse_digits most 0 (to_string m) ≡ some m)
      (λ m h le.
        rw (to_string-small m h)
          (parse_digits-digit most 0 m h (omega arith) ∙ ap some (omega arith)))
      (λ m h ih le. rw (to_string-large m h) (
        parse_digits-append most 0 (m / 10) (to_string (m / 10)) _ (ih (omega arith))
        ∙ parse_digits-digit most (m / 10) (m % 10) (omega arith) (omega arith)
        ∙ ap some (omega arith)))
      n n (omega arith)

parse_digits-zeros :
    (most k : ℕ) (s : Text) → parse_digits most 0 (replicate k b'0' ++ s) ≡ parse_digits most 0 s
unfolding parse_digits
parse_digits-zeros most zero s = refl
parse_digits-zeros most (suc k) s = ground (arith, parse_digits-zeros most k s)

replicate-IsDigit : (k : ℕ) → All IsDigit (replicate k b'0')
replicate-IsDigit zero = tt
replicate-IsDigit (suc k) = (omega arith, replicate-IsDigit k)

pub pad_left-IsDigit : (w n : ℕ) → All IsDigit (pad_left w n)
unfolding pad_left
pad_left-IsDigit w n =
    All-append IsDigit (replicate (w - length (to_string n)) b'0') (to_string n)
      (replicate-IsDigit _) (to_string-IsDigit n)

parse_uint-digits :
    (most : ℕ) (s : Text) → All IsDigit s → s ≢ [] → parse_uint most s ≡ parse_digits most 0 s
unfolding parse_uint
parse_uint-digits most [] h ne = absurd (ne refl)
parse_uint-digits most (c ∷ []) h ne = ground arith
parse_uint-digits most (c ∷ d ∷ s) h ne = ground arith

append-ne-nil : (s t : Text) → t ≢ [] → s ++ t ≢ []
append-ne-nil [] t h e = h e
append-ne-nil (x ∷ s) t h e = cc

pub to_string-ne-nil : (n : ℕ) → to_string n ≢ []
to_string-ne-nil n e = let (c, s, p) = to_string-eq-cons n in cc (p, e)

pub pad_left-ne-nil : (w n : ℕ) → pad_left w n ≢ []
unfolding pad_left
pad_left-ne-nil w n =
    append-ne-nil (replicate (w - length (to_string n)) b'0') (to_string n) (to_string-ne-nil n)

-- A number that the type can hold is read back from its padded digits.
pub parse_uint-pad_left : (most w n : ℕ) → n ≤ most → parse_uint most (pad_left w n) ≡ some n
unfolding pad_left
parse_uint-pad_left most w n le =
    parse_uint-digits most (pad_left w n) (pad_left-IsDigit w n) (pad_left-ne-nil w n)
    ∙ parse_digits-zeros most (w - length (to_string n)) (to_string n)
    ∙ parse_digits-to_string most n le

length-to_string-step :
    (n k : ℕ) → length (to_string (n / 10)) ≤ k → 0 < k → length (to_string n) ≤ k + 1
length-to_string-step n k h p = elim (dec_lt 9 n) [
  | yes q ↦ rw (to_string-large n q, length-append (to_string (n / 10))) (omega arith)
  | no q ↦ rw (to_string-small n (omega arith)) (omega arith)
]

length-to_string_3 : (n : ℕ) → n < 1000 → length (to_string n) ≤ 3
length-to_string_3 n h =
    length-to_string-step n 2
      (length-to_string-step (n / 10) 1
        (rw (to_string-small (n / 10 / 10) (omega arith)) (omega arith)) (omega arith))
      (omega arith)

-- Three digits hold a number below a thousand.
pub length-pad_left_3 : (n : ℕ) → n < 1000 → length (pad_left 3 n) ≡ 3
unfolding pad_left
length-pad_left_3 n h =
    length-append (replicate (3 - length (to_string n)) b'0') (to_string n)
    ∙ omega
        (arith, length-to_string_3 n h, length-replicate {A = ℕ} (3 - length (to_string n)) b'0')
