-- ===== src/TimeZone.antt =====
-- networker/base/TimeZone.cpp: the calendar of UTC, the search for the local time that is in force,
-- and the reader of zone files. The conversions of the C library are not part of this.
pub mod Utc
pub mod Search
pub mod File
pub mod FileLaws
pub mod FileRead
mod Samples
use network_program_base_fra.Prelude.{
  ℕ, ◌+◌, ◌-◌, ◌*◌, ◌/◌, ◌%◌, ◌^◌, Bool, true, false, Option, none, some, List, [], ◌∷◌,
  if◌then◌else◌, ◌>>=◌, ◌>>◌, assert, ltb, leb, ◌==◌, not, length, get_elem?,
}
use network_program_base_fra.Prelude.Int.{ℤ, pos, negsuc, sub_ℕ, pos_part, neg_part}
use network_program_base_fra.Date.{
  fits_int, get_julian_day_number, get_year_month_day, week_day, julian_day_of_1970_01_01,
}

abbrev pub seconds_per_day : ℕ
seconds_per_day = 24 * 60 * 60

-- A `struct tm`, with the year and the month as people count them: `tm_year + 1900` and
-- `tm_mon + 1`, which are what both conversions use.
pub record Tm : Type 0 where
  pub sec : ℕ
  pub min : ℕ
  pub hour : ℕ
  pub mday : ℕ
  pub month : ℕ
  pub year : ℕ
  pub wday : ℕ
  pub yday : ℕ

-- The seconds, minutes and hours.
abbrev pub fill_hms : ℕ → ℕ × (ℕ × ℕ)
fill_hms seconds = let minutes : ℕ = seconds / 60 in (seconds % 60, (minutes % 60, minutes / 60))

-- `static_cast<int>`
abbrev pub signed_32 : ℕ → ℤ
signed_32 n = if ltb n (2 ^ 31) then pos n else negsuc (2 ^ 32 - 1 - n)

abbrev pub int_of : ℤ → ℤ
int_of (pos n) = signed_32 (n % 2 ^ 32)
int_of (negsuc n) = signed_32 (2 ^ 32 - 1 - n % 2 ^ 32)

-- The Julian day of a count of days since 1970.
abbrev pub julian_day : ℤ → Option ℕ
julian_day (pos d) = some (d + julian_day_of_1970_01_01)
julian_day (negsuc d) = do
  assert (leb (d + 1) julian_day_of_1970_01_01)
  some (julian_day_of_1970_01_01 - (d + 1))

abbrev pub day_in_year : ℕ → ℕ → Bool → Option ℕ
day_in_year julian_day year false = some 0
day_in_year julian_day year true = do
  start_of_year ← get_julian_day_number year 1 1
  some (julian_day - start_of_year)

abbrev pub split_at_day : ℕ → ℕ → Bool → Option Tm
split_at_day seconds julian_day yday =
    let hms : ℕ × (ℕ × ℕ) = fill_hms seconds in
    do
      ymd ← get_year_month_day julian_day
      in_year ← day_in_year julian_day ymd.year yday
      some (record {
        sec = hms.0;
        min = hms.1.0;
        hour = hms.1.1;
        mday = ymd.day;
        month = ymd.month;
        year = ymd.year;
        wday = week_day julian_day;
        yday = in_year;
      })

-- A negative count `- (n + 1)` has a remainder and a quotient that are not positive; the day
-- before is taken if the remainder is negative. `none` is a day before the first Julian day, or an
-- `int` that overflows.
unfoldable pub to_utc_time : ℤ → Bool → Option Tm
to_utc_time (pos n) yday = do
  day ← julian_day (int_of (pos (n / seconds_per_day)))
  split_at_day (n % seconds_per_day) day yday
to_utc_time (negsuc n) yday =
    let seconds : ℕ = (n + 1) % seconds_per_day in
    let days : ℤ = int_of (sub_ℕ 0 ((n + 1) / seconds_per_day)) in
    do
      day ← julian_day days
      (if ltb 0 seconds
          then (do assert (ltb 0 day); split_at_day (seconds_per_day - seconds) (day - 1) yday)
          else split_at_day 0 day yday)

-- The days since 1970 may be negative.
unfoldable pub from_utc_time : ℕ → ℕ → ℕ → ℕ → ℕ → ℕ → Option ℤ
from_utc_time year month day hour minute seconds =
    let seconds_in_day : ℕ = hour * 3600 + minute * 50 + seconds in
    do
      day_number ← get_julian_day_number year month day
      assert (fits_int seconds_in_day)
      some (
          sub_ℕ (day_number * seconds_per_day + seconds_in_day)
            (julian_day_of_1970_01_01 * seconds_per_day))

unfoldable pub from_utc_tm : Tm → Option ℤ
from_utc_tm utc = from_utc_time utc.year utc.month utc.mday utc.hour utc.min utc.sec

pub record Transition : Type 0 where
  pub gmttime : ℤ
  pub localtime : ℤ
  pub localtime_idx : ℕ

pub record Localtime : Type 0 where
  pub gmt_offset : ℤ
  pub is_dst : Bool
  pub arrb_idx : ℕ

pub record Data : Type 0 where
  pub transitions : List Transition
  pub localtimes : List Localtime

-- The times that `Comp` compares.
unfoldable pub key : Bool → Transition → ℤ
key compare_gmt t = if compare_gmt then t.gmttime else t.localtime

abbrev pub earlier : ℤ → ℤ → Bool
earlier a b = ltb (pos_part a + neg_part b) (pos_part b + neg_part a)

abbrev pub same : ℤ → ℤ → Bool
same a b = (pos_part a + neg_part b) == (pos_part b + neg_part a)

-- `lower_bound`: the transitions before the time, and those from it on.
unfoldable pub before : (Transition → ℤ) → ℤ → List Transition → List Transition
before k s [] = []
before k s (t ∷ ts) = let rest = before k s ts in if earlier (k t) s then t ∷ rest else []

unfoldable pub from : (Transition → ℤ) → ℤ → List Transition → List Transition
from k s [] = []
from k s (t ∷ ts) = let rest = from k s ts in if earlier (k t) s then rest else t ∷ ts

unfoldable pub back : List Transition → Option Transition
back [] = none
back (t ∷ []) = some t
back (t ∷ u ∷ ts) = back (u ∷ ts)

-- The transition at the lower bound, or the one before it, or the last.
abbrev pub at_bound :
    (Transition → ℤ) → ℤ → List Transition → List Transition → List Transition → Option Transition
at_bound k s ts earlier_ones [] = back ts
at_bound k s ts earlier_ones (t ∷ later_ones) = if same s (k t) then some t else back earlier_ones

-- `none` is a failed assertion or an index out of range.
abbrev pub in_force : (Transition → ℤ) → ℤ → List Transition → List Localtime → Option Localtime
in_force k s [] localtimes = get_elem? localtimes 0
in_force k s (t ∷ ts) localtimes = if earlier s (k t) then get_elem? localtimes 0 else (do
  found ← at_bound k s (t ∷ ts) (before k s (t ∷ ts)) (from k s (t ∷ ts))
  get_elem? localtimes found.localtime_idx)

unfoldable pub find_localtime : Data → ℤ → Bool → Option Localtime
find_localtime data_ sentry compare_gmt =
    in_force (key compare_gmt) sentry data_.transitions data_.localtimes
