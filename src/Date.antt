-- ===== src/Date.antt =====
-- networker/base/Date.h and Date.cpp. The years are those from 0 on and the months from 1 to 12,
-- where no difference in the two conversions is negative. They compute in `int`: where the greatest
-- number that they come to has more than 31 bits, the result is `none`.
pub mod RoundTrip
mod Samples
use network_program_base_fra.Prelude.{
  ℕ, ◌+◌, ◌-◌, ◌*◌, ◌/◌, ◌%◌, ◌^◌, Bool, Option, some, ltb, ◌>>=◌, ◌>>◌, assert,
}

abbrev pub fits_int : ℕ → Bool
fits_int n = ltb n (2 ^ 31)

-- The sum that `getJulianDayNumber` has formed before it subtracts, its greatest number.
abbrev pub greatest_sum : ℕ → ℕ → ℕ → ℕ
greatest_sum year month day =
    let a : ℕ = (14 - month) / 12 in
    let y : ℕ = year + 4800 - a in
    let m : ℕ = month + 12 * a - 3 in day + (153 * m + 2) / 5 + y * 365 + y / 4

unfoldable pub day_number : ℕ → ℕ → ℕ → ℕ
day_number year month day =
    let a : ℕ = (14 - month) / 12 in
    let y : ℕ = year + 4800 - a in
    let m : ℕ = month + 12 * a - 3 in
    day + (153 * m + 2) / 5 + y * 365 + y / 4 - y / 100 + y / 400 - 32045

unfoldable pub get_julian_day_number : ℕ → ℕ → ℕ → Option ℕ
get_julian_day_number year month day = do
  assert (fits_int (greatest_sum year month day))
  some (day_number year month day)

pub record YearMonthDay : Type 0 where
  pub year : ℕ
  pub month : ℕ
  pub day : ℕ

unfoldable pub calendar : ℕ → YearMonthDay
calendar julian_day_number =
    let a : ℕ = julian_day_number + 32044 in
    let b : ℕ = (4 * a + 3) / 146097 in
    let c : ℕ = a - (b * 146097) / 4 in
    let d : ℕ = (4 * c + 3) / 1461 in
    let e : ℕ = c - (1461 * d) / 4 in
    let m : ℕ = (5 * e + 2) / 153 in
    record {
      year = b * 100 + d - 4800 + m / 10;
      month = m + 3 - 12 * (m / 10);
      day = e - (153 * m + 2) / 5 + 1;
    }

-- Four times the days, plus three, is the greatest number of `getYearMonthDay`.
unfoldable pub get_year_month_day : ℕ → Option YearMonthDay
get_year_month_day julian_day_number = do
  assert (fits_int (4 * (julian_day_number + 32044) + 3))
  some (calendar julian_day_number)

abbrev pub julian_day_of_1970_01_01 : ℕ
julian_day_of_1970_01_01 = 2440588

unfoldable pub week_day : ℕ → ℕ
week_day julian_day_number = (julian_day_number + 1) % 7

unfoldable pub valid : ℕ → Bool
valid julian_day_number = ltb 0 julian_day_number
