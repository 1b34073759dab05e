-- ===== src/Lane/Cadence.antt =====
-- The bounds of the cadence arithmetic.
use asrsub.Prelude.{
  ℕ, ◌+◌, ◌*◌, ◌≤◌, ◌≡◌, ◌⊎◌, refl, Option, some, min, max, checked_add, checked_mul, u64_max,
  arith, le→leb, ne→==_false, inl, inr, ap,
}
use asrsub.Lane.Clock.{attempt_window_ns, max_backoff_seconds, next_backoff, next_deadline, or_zero}

checked_add-some : (a b : ℕ) → a + b ≤ u64_max → checked_add a b ≡ some (a + b)
checked_add-some a b h = rw (le→leb (a + b) u64_max h) refl

checked_mul-some : (a b : ℕ) → a * b ≤ u64_max → checked_mul a b ≡ some (a * b)
checked_mul-some a b h = rw (le→leb (a * b) u64_max h) refl

-- A wait that the lane may have stored: none yet, or fifteen minutes to a day.
abbrev pub IsBackoff : ℕ → Type 0
IsBackoff b = (b ≡ 0) ⊎ ((900 ≤ b) × (b ≤ max_backoff_seconds))

-- After any wait that the lane may have stored, the next one is defined: twice the last, but at least
-- fifteen minutes and at most a day.
pub next_backoff-bounds :
    (previous : ℕ)
    → IsBackoff previous
    → next_backoff previous ≡ some (max 900 (min (previous * 2) max_backoff_seconds))
unfolding next_backoff
next_backoff-bounds previous (inl e) = rw (e) refl
next_backoff-bounds previous (inr (low, high)) =
    rw (ne→==_false previous 0 (omega arith), checked_mul-some previous 2 (omega arith))
      (ap some (omega arith))

-- Where no sum passes the limit of `u64`, the deadline is defined, and it is no earlier than fifteen
-- minutes after the attempt, the wait after the response, and what the server asked for.
pub next_deadline-bounds :
    (attempt_start response_epoch backoff : ℕ) (retry_after : Option ℕ)
    → attempt_start + attempt_window_ns ≤ u64_max
    → response_epoch + backoff * 1_000_000_000 ≤ u64_max
    → response_epoch + or_zero retry_after * 1_000_000_000 ≤ u64_max
    → (d : ℕ) × (next_deadline attempt_start response_epoch backoff retry_after ≡ some d)
      × (attempt_start + attempt_window_ns ≤ d)
      × (response_epoch + backoff * 1_000_000_000 ≤ d)
      × (response_epoch + or_zero retry_after * 1_000_000_000 ≤ d)
unfolding next_deadline
next_deadline-bounds attempt_start response_epoch backoff retry_after floor wait asked = (
  max (max (attempt_start + attempt_window_ns) (response_epoch + backoff * 1_000_000_000))
      (or_zero retry_after * 1_000_000_000 + response_epoch),
  rw
      (
        checked_add-some attempt_start attempt_window_ns floor,
        checked_mul-some backoff 1_000_000_000 (omega arith),
        checked_add-some response_epoch (backoff * 1_000_000_000) wait,
        checked_mul-some (or_zero retry_after) 1_000_000_000 (omega arith),
        checked_add-some (or_zero retry_after * 1_000_000_000) response_epoch (omega arith),
      )
      refl,
  omega arith,
  omega arith,
  omega arith,
)
