-- ===== src/TimeZone/Utc.antt =====
-- `toUtcTime` and `fromUtcTime` of networker/base/TimeZone.cpp against each other.
use network_program_base_fra.Prelude.{
  ℕ, ◌+◌, ◌-◌, ◌*◌, ◌/◌, ◌%◌, ◌^◌, ◌≤◌, ◌<◌, ◌≡◌, refl, ap, Bool, true, false, some, ◌>>=◌, le→leb,
  lt→ltb, arith,
}
use network_program_base_fra.Prelude.Int.{pos, sub_ℕ}
use network_program_base_fra.Date.{calendar, day_number}
use network_program_base_fra.Date.RoundTrip.{last_day, get_year_month_day_lem, day_number-calendar}
use network_program_base_fra.TimeZone.{int_of, day_in_year, to_utc_time, from_utc_time, from_utc_tm}

int_of-small : (n : ℕ) → n < 2 ^ 31 → int_of (pos n) ≡ pos n
int_of-small n h = let same : n % 2 ^ 32 ≡ n = omega arith in rw (same, lt→ltb n (2 ^ 31) h) refl

sum :
    (n : ℕ)
    → sub_ℕ
        ((n / 86400 + 2440588) * 86400
          + (n % 86400 / 60 / 60 * 3600 + n % 86400 / 60 % 60 * 50 + n % 86400 % 60))
        210866803200
      ≡ pos (n - 10 * (n / 60 % 60))
sum n =
    let total : (n / 86400 + 2440588) * 86400
          + (n % 86400 / 60 / 60 * 3600 + n % 86400 / 60 % 60 * 50 + n % 86400 % 60)
        ≡ n - 10 * (n / 60 % 60) + 210866803200 =
      omega arith in
    rw (total, le→leb 210866803200 (n - 10 * (n / 60 % 60) + 210866803200) (omega arith))
      (ap pos (omega arith))

-- From 1970 on, and while the date of the day is computed within an int, both conversions succeed,
-- and fromUtcTime of what toUtcTime gives is not the time it was given but ten seconds less for
-- each minute past the hour, since it counts a minute as fifty seconds.
pub from-to_utc :
    (n : ℕ) (yday : Bool)
    → n / 86400 + 2440588 ≤ last_day
    → (to_utc_time (pos n) yday >>= from_utc_tm) ≡ some (pos (n - 10 * (n / 60 % 60)))
unfolding from_utc_tm from_utc_time to_utc_time
from-to_utc n yday h =
    let day : ℕ = n / 86400 + 2440588 in
    let (found, back, first) = get_year_month_day_lem day h in
    let small : int_of (pos (n / 86400)) ≡ pos (n / 86400) =
      int_of-small (n / 86400) (omega arith) in
    let (in_year, e) = year yday day h in
    let below =
      lt→ltb (n % 86400 / 60 / 60 * 3600 + n % 86400 / 60 % 60 * 50 + n % 86400 % 60) (2 ^ 31)
        (omega arith) in
    rw (small, found, e, back, below, day_number-calendar day (omega arith)) (ap some (sum n))
  where
    year :
        (yday : Bool) (day : ℕ)
        → day ≤ last_day
        → (d : ℕ) × (day_in_year day (calendar day).year yday ≡ some d)
    year true day h =
        let (found, back, first) = get_year_month_day_lem day h in
        (day - day_number (calendar day).year 1 1, rw first refl)
    year false day h = (0, refl)
