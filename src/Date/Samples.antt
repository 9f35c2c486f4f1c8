-- ===== src/Date/Samples.antt =====
-- networker/base/Date.cpp on concrete days.
use network_program_base_fra.Prelude.{◌≡◌, refl, some, none, ◌>>=◌, arith}
use network_program_base_fra.Date.{
  get_julian_day_number, day_number, get_year_month_day, calendar, julian_day_of_1970_01_01,
}
use network_program_base_fra.Date.RoundTrip.{day-date}

-- The constant is computed as the program computes it.
epoch : get_julian_day_number 1970 1 1 ≡ some julian_day_of_1970_01_01
unfolding get_julian_day_number day_number
epoch = refl

leap_day : get_year_month_day 2460370 ≡ some (record { year = 2024; month = 2; day = 29 })
unfolding get_year_month_day calendar
leap_day = refl

day-date_example :
    (get_year_month_day 2460370 >>= λ d. get_julian_day_number d.year d.month d.day) ≡ some 2460370
day-date_example = day-date 2460370 (omega arith) (omega arith)

-- Beyond it the computation overflows.
overflows : get_year_month_day 536838868 ≡ none
unfolding get_year_month_day
overflows = refl
