-- ===== src/State/Clock.antt =====
-- src/state.rs: the date and the time of a Unix time.
use asrsub.Prelude.{ℕ, ◌+◌, ◌-◌, ◌*◌, ◌/◌, ◌%◌, if◌then◌else◌, ltb, leb}

pub record DateTime : Type 0 where
  pub year : ℕ
  pub month : ℕ
  pub day : ℕ
  pub hour : ℕ
  pub minute : ℕ
  pub second : ℕ

-- The day counted from 1 March of year 0. All values are at least 0, since the time is.
unfoldable pub shifted_days : ℕ → ℕ
shifted_days secs = secs / 86400 + 719468

unfoldable pub day_of_era : ℕ → ℕ
day_of_era z = z - (z / 146097) * 146097

unfoldable pub year_of_era : ℕ → ℕ
year_of_era doe = (((doe - doe / 1460) + doe / 36524) - doe / 146096) / 365

unfoldable pub day_of_year : ℕ → ℕ → ℕ
day_of_year doe yoe = doe - ((365 * yoe + yoe / 4) - yoe / 100)

unfoldable pub month_index : ℕ → ℕ
month_index doy = (5 * doy + 2) / 153

unfoldable pub unix_to_ymd_hms : ℕ → DateTime
unix_to_ymd_hms secs =
    let tod = secs % 86400 in
    let z = shifted_days secs in
    let doe = day_of_era z in
    let yoe = year_of_era doe in
    let doy = day_of_year doe yoe in
    let mp = month_index doy in
    let m = if ltb mp 10 then mp + 3 else mp - 9 in
    let y = yoe + (z / 146097) * 400 in
    record {
      year = if leb m 2 then y + 1 else y;
      month = m;
      day = (doy - (153 * mp + 2) / 5) + 1;
      hour = tod / 3600;
      minute = (tod % 3600) / 60;
      second = tod % 60;
    }
