-- ===== src/Date/RoundTrip.antt =====
-- `getJulianDayNumber` of networker/base/Date.cpp undoes `getYearMonthDay`.
use network_program_base_fra.Prelude.{
  ℕ, ◌+◌, ◌-◌, ◌*◌, ◌/◌, ◌^◌, ◌≤◌, ◌≡◌, refl, ap, some, lt→ltb, ◌>>=◌, arith,
}
use network_program_base_fra.Date.{
  greatest_sum, day_number, get_julian_day_number, calendar, get_year_month_day,
}

century : (a : ℕ) → let b : ℕ = (4 * a + 3) / 146097 in a - (b * 146097) / 4 ≤ 36524
century a = omega arith

in_century : (a : ℕ) → let b : ℕ = (4 * a + 3) / 146097 in (b * 146097) / 4 ≤ a
in_century a = omega arith

year_lem :
    (c : ℕ)
    → c ≤ 36524
    → let d : ℕ = (4 * c + 3) / 1461 in (d ≤ 99) × ((1461 * d) / 4 ≤ c) × (c - (1461 * d) / 4 ≤ 365)
year_lem c h = (omega arith, omega arith, omega arith)

month_lem :
    (e : ℕ)
    → e ≤ 365
    → let m : ℕ = (5 * e + 2) / 153 in
      (m ≤ 11) × ((153 * m + 2) / 5 ≤ e) × (e - (153 * m + 2) / 5 ≤ 30)
month_lem e h = (omega arith, omega arith, omega arith)

-- The days before a year, counted from the first of March of the year -4800.
days_lem :
    (b d : ℕ)
    → d ≤ 99
    → let y : ℕ = b * 100 + d in
      y * 365 + y / 4 + y / 400 ≡ (b * 146097) / 4 + (1461 * d) / 4 + y / 100
days_lem b d h = omega arith

back_month :
    (m : ℕ)
    → m ≤ 11
    → let month : ℕ = m + 3 - 12 * (m / 10) in
      ((14 - month) / 12 ≡ m / 10) × (month + 12 * ((14 - month) / 12) - 3 ≡ m)
back_month m h = (omega arith, omega arith)

from_march :
    (a : ℕ)
    → 1753164 ≤ a
    → let b : ℕ = (4 * a + 3) / 146097 in
      let c : ℕ = a - (b * 146097) / 4 in 4800 ≤ b * 100 + (4 * c + 3) / 1461
from_march a h = omega arith

pub day_number-calendar :
    (j : ℕ) → 1721120 ≤ j → let date = calendar j in day_number date.year date.month date.day ≡ j
unfolding day_number calendar
day_number-calendar j h =
    let a : ℕ = j + 32044 in
    let b : ℕ = (4 * a + 3) / 146097 in
    let c : ℕ = a - (b * 146097) / 4 in
    let d : ℕ = (4 * c + 3) / 1461 in
    let e : ℕ = c - (1461 * d) / 4 in
    let m : ℕ = (5 * e + 2) / 153 in
    let (d_small, d_in, e_small) = year_lem c (century a) in
    let (m_small, m_in, day_small) = month_lem e e_small in
    let (back, month) = back_month m m_small in
    let late = from_march a (omega arith) in
    sum j b c d e m (in_century a) d_in m_in (days_lem b d d_small) late back month refl refl
  where
    sum :
        (j b c d e m : ℕ)
        → (b * 146097) / 4 ≤ j + 32044
        → (1461 * d) / 4 ≤ c
        → (153 * m + 2) / 5 ≤ e
        → (b * 100 + d) * 365 + (b * 100 + d) / 4 + (b * 100 + d) / 400
          ≡ (b * 146097) / 4 + (1461 * d) / 4 + (b * 100 + d) / 100
        → 4800 ≤ b * 100 + d
        → (14 - (m + 3 - 12 * (m / 10))) / 12 ≡ m / 10
        → m + 3 - 12 * (m / 10) + 12 * ((14 - (m + 3 - 12 * (m / 10))) / 12) - 3 ≡ m
        → c ≡ j + 32044 - (b * 146097) / 4
        → e ≡ c - (1461 * d) / 4
        → day_number
            (b * 100 + d - 4800 + m / 10)
            (m + 3 - 12 * (m / 10))
            (e - (153 * m + 2) / 5 + 1)
          ≡ j
    sum j b c d e m hb hd hm days late back month hc he =
        let year : b * 100 + d - 4800 + m / 10 + 4800 - (14 - (m + 3 - 12 * (m / 10))) / 12
            ≡ b * 100 + d =
          omega arith in
        rw (year, month) (omega arith)

-- The month is from 1 to 12 and the day from 1 to 31.
pub date_bounds :
    (j : ℕ)
    → let date = calendar j in
      (1 ≤ date.month) × (date.month ≤ 12) × (1 ≤ date.day) × (date.day ≤ 31)
unfolding calendar
date_bounds j =
    let a : ℕ = j + 32044 in
    let b : ℕ = (4 * a + 3) / 146097 in
    let c : ℕ = a - (b * 146097) / 4 in
    let d : ℕ = (4 * c + 3) / 1461 in
    let e : ℕ = c - (1461 * d) / 4 in
    let (d_small, d_in, e_small) = year_lem c (century a) in
    let (m_small, m_in, day_small) = month_lem e e_small in
    bounds ((5 * e + 2) / 153) e m_small day_small
  where
    bounds :
        (m e : ℕ)
        → m ≤ 11
        → e - (153 * m + 2) / 5 ≤ 30
        → (1 ≤ m + 3 - 12 * (m / 10))
          × (m + 3 - 12 * (m / 10) ≤ 12)
          × (1 ≤ e - (153 * m + 2) / 5 + 1)
          × (e - (153 * m + 2) / 5 + 1 ≤ 31)
    bounds m e h k = (omega arith, omega arith, omega arith, omega arith)

-- The last day whose date is computed within an int.
abbrev pub last_day : ℕ
last_day = 536838867

year_bound : (j : ℕ) → j ≤ last_day → (calendar j).year ≤ 1500000
unfolding calendar
year_bound j h =
    let a : ℕ = j + 32044 in
    let b : ℕ = (4 * a + 3) / 146097 in
    let c : ℕ = a - (b * 146097) / 4 in
    let d : ℕ = (4 * c + 3) / 1461 in
    let e : ℕ = c - (1461 * d) / 4 in
    let (d_small, d_in, e_small) = year_lem c (century a) in
    let (m_small, m_in, day_small) = month_lem e e_small in
    bound b d ((5 * e + 2) / 153) (century_bound a (omega arith)) d_small m_small
  where
    century_bound : (a : ℕ) → a ≤ 536870911 → (4 * a + 3) / 146097 ≤ 14699
    century_bound a h = omega arith

    bound : (b d m : ℕ) → b ≤ 14699 → d ≤ 99 → m ≤ 11 → b * 100 + d - 4800 + m / 10 ≤ 1500000
    bound b d m h k l = omega arith

pub get_julian_day_number_lem :
    (year month day : ℕ)
    → year ≤ 1500000
    → month ≤ 12
    → day ≤ 31
    → get_julian_day_number year month day ≡ some (day_number year month day)
unfolding get_julian_day_number
get_julian_day_number_lem year month day h k l =
    rw (lt→ltb (greatest_sum year month day) (2 ^ 31) (omega arith)) refl

pub get_year_month_day_lem :
    (j : ℕ)
    → j ≤ last_day
    → (get_year_month_day j ≡ some (calendar j))
      × (get_julian_day_number (calendar j).year (calendar j).month (calendar j).day
          ≡ some (day_number (calendar j).year (calendar j).month (calendar j).day))
      × (get_julian_day_number (calendar j).year 1 1 ≡ some (day_number (calendar j).year 1 1))
unfolding get_year_month_day
get_year_month_day_lem j h =
    let (m0, m1, d0, d1) = date_bounds j in
    let y : (calendar j).year ≤ 1500000 = year_bound j h in
    (
      rw (lt→ltb (4 * (j + 32044) + 3) (2 ^ 31) (omega arith)) refl,
      get_julian_day_number_lem (calendar j).year (calendar j).month (calendar j).day y m1 d1,
      get_julian_day_number_lem (calendar j).year 1 1 y (omega arith) (omega arith),
    )

-- From 1 March of the year 0 to the last day whose date is computed within an int: both
-- conversions stay within an int, and the Julian day number of the date of a day is that day.
pub day-date :
    (j : ℕ)
    → 1721120 ≤ j
    → j ≤ last_day
    → (get_year_month_day j >>= λ d. get_julian_day_number d.year d.month d.day) ≡ some j
day-date j h k =
    let (e, f, g) = get_year_month_day_lem j k in rw (e, f) (ap some (day_number-calendar j h))
