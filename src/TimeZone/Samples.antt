-- ===== src/TimeZone/Samples.antt =====
-- networker/base/TimeZone.cpp on concrete times.
use network_program_base_fra.Prelude.{
  ◌-◌, ◌*◌, ◌/◌, ◌%◌, ◌>>=◌, ◌≡◌, refl, true, false, none, some, List, [], ◌∷◌, arith,
}
use network_program_base_fra.Prelude.Int.{pos, negsuc}
use network_program_base_fra.TimeZone.{Data, key, find_localtime, to_utc_time, from_utc_tm}
use network_program_base_fra.TimeZone.{Transition}
use network_program_base_fra.TimeZone.File.{read_time_zone_file}
use network_program_base_fra.TimeZone.FileLaws.{Describes}
use network_program_base_fra.TimeZone.FileRead.{Zone, IsSound, encode, read-encode}
use network_program_base_fra.TimeZone.Search.{latest, chosen, find_localtime_lem}
use network_program_base_fra.TimeZone.Utc.{from-to_utc}
use network_program_base_fra.Date.{
  get_year_month_day, calendar, get_julian_day_number, day_number, week_day,
}

-- A quarter of an hour into 1970: 150 seconds are lost.
from-to_utc_example :
    (to_utc_time (pos 900) false >>= from_utc_tm) ≡ some (pos (900 - 10 * (900 / 60 % 60)))
from-to_utc_example = from-to_utc 900 false (omega arith)

-- The last second of 1969, a Wednesday.
new_year_eve :
    to_utc_time (negsuc 0) true
    ≡ some (record {
      sec = 59;
      min = 59;
      hour = 23;
      mday = 31;
      month = 12;
      year = 1969;
      wday = 3;
      yday = 364;
    })
unfolding to_utc_time get_year_month_day calendar get_julian_day_number day_number week_day
new_year_eve = refl

abbrev zone : Data
zone = record {
  transitions =
      record { gmttime = negsuc 9; localtime = pos 0; localtime_idx = 1 }
      ∷ record { gmttime = pos 100; localtime = pos 110; localtime_idx = 0 }
      ∷ [];
  localtimes =
      record { gmt_offset = pos 10; is_dst = false; arrb_idx = 0 }
      ∷ record { gmt_offset = pos 20; is_dst = true; arrb_idx = 4 }
      ∷ [];
}

find_localtime_lem_example :
    find_localtime zone (pos 99) true
    ≡ chosen (key true) (pos 99) (latest (key true) (pos 99) none zone.transitions) zone.localtimes
unfolding key
find_localtime_lem_example = find_localtime_lem zone (pos 99) true (refl, tt)

-- One change to summer time, an hour ahead, at 1000 seconds.
abbrev summer : Zone
summer = record {
  version = 50;
  reserved = 0 ∷ 0 ∷ 0 ∷ 0 ∷ 0 ∷ 0 ∷ 0 ∷ 0 ∷ 0 ∷ 0 ∷ 0 ∷ 0 ∷ 0 ∷ 0 ∷ 0 ∷ [];
  isgmtcnt = pos 0;
  isstdcnt = pos 0;
  leapcnt = pos 1;
  times = pos 1000 ∷ [];
  indices = 1 ∷ [];
  types =
      record { gmt_offset = negsuc 3599; is_dst = false; arrb_idx = 0 }
      ∷ record { gmt_offset = pos 0; is_dst = true; arrb_idx = 4 }
      ∷ [];
  abbreviation = 65 ∷ 0 ∷ 66 ∷ 0 ∷ [];
  rest = 0 ∷ 0 ∷ 0 ∷ 9 ∷ 0 ∷ 0 ∷ 0 ∷ 1 ∷ [];
}

summer-IsSound : IsSound summer
summer-IsSound = record {
  padding = refl;
  gmt = refl;
  std = refl;
  leap = refl;
  many_times = omega arith;
  many_types = omega arith;
  many_letters = omega arith;
  each_time = refl;
  paired = refl;
  inside = refl;
  offsets = refl;
}

read-encode_example :
    (out : List Transition) × Describes summer.types (pos 1000 ∷ []) (1 ∷ []) out
    × (read_time_zone_file (encode summer)
        ≡ some (record {
          zone = record { transitions = out; localtimes = summer.types };
          abbreviation = 65 ∷ 0 ∷ 66 ∷ 0 ∷ [];
        }))
read-encode_example = read-encode summer summer-IsSound
