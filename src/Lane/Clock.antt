-- ===== src/Lane/Clock.antt =====
-- src/discord_state_clock.rs: checked cadence arithmetic on `u64`.
use asrsub.Prelude.{
  ℕ, ◌*◌, Option, none, some, min, max, checked_add, checked_mul, ◌>>=◌, ◌==◌, if◌then◌else◌,
}

abbrev pub attempt_window_ns : ℕ
attempt_window_ns = 900 * 1_000_000_000

abbrev pub max_backoff_seconds : ℕ
max_backoff_seconds = 86_400

unfoldable pub next_backoff : ℕ → Option ℕ
next_backoff previous =
    if previous == 0
    then some 900
    else checked_mul previous 2 >>= λ doubled. some (min doubled max_backoff_seconds)

abbrev pub or_zero : Option ℕ → ℕ
or_zero none = 0
or_zero (some n) = n

unfoldable pub next_deadline : ℕ → ℕ → ℕ → Option ℕ → Option ℕ
next_deadline attempt_start response_epoch backoff retry_after = do
  floor ← checked_add attempt_start attempt_window_ns
  wait ← checked_mul backoff 1_000_000_000
  retry ← checked_add response_epoch wait
  asked ← checked_mul (or_zero retry_after) 1_000_000_000
  header ← checked_add asked response_epoch
  some (max (max floor retry) header)
