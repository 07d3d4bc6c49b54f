-- ===== src/Examples/Zones.antt =====
-- The theorems about muduo/base/TimeZone.cc at concrete inputs.
use cs_note.Common.{
  ◌++◌, ◌≡◌, refl, true, false, none, some, Option, [], ◌∷◌, ℤ, pos, negsuc, ok, fault,
  out_of_range, codes, arith, replicate, bytes_eq,
}
use cs_note.Date.{day_number, get_julian_day_number, date_of, get_year_month_day, week_day}
use cs_note.Zone.{
  Tm, zeroed, to_utc_time, from_utc_fields, from_utc_time, broken_down, days_and_seconds,
}
use cs_note.Zone.Utc.{from_utc_time-to_utc_time}
use cs_note.Zone.Local.{
  Localtime, Data, TimeZone, at, gmt_sentry, find_localtime, to_local_time, from_local_time,
}
use cs_note.Zone.Local.Lookup.{in_force, IsAscending, find_localtime-in_force}
use cs_note.Zone.Local.RoundTrip.{IsOnce, from_local_time-to_local_time}
use cs_note.Zone.File.{read_time_zone_file, zone_of_file, valid}
use cs_note.Zone.File.Pieces.{AreTransitions, AreLocaltimes}
use cs_note.Zone.File.RoundTrip.{
  Header, IsZone, zone_bytes, read_time_zone_file-zone_bytes, to_local_time-zone_of_file,
}

-- One second before 1970.
from_utc_time-to_utc_time_example :
    (utc : Tm) × (to_utc_time true (negsuc 0) ≡ some utc) × (from_utc_time utc ≡ some (negsuc 0))
from_utc_time-to_utc_time_example = from_utc_time-to_utc_time true (negsuc 0) refl refl

-- New York in 2012: standard time, daylight saving time from 11 March to 4 November.
abbrev standard : Localtime
standard = record { gmt_offset = negsuc 17999; is_dst = false; arrb_idx = 0 }

abbrev daylight : Localtime
daylight = record { gmt_offset = negsuc 14399; is_dst = true; arrb_idx = 4 }

abbrev new_york : Data
new_york = record {
  transitions =
      record { gmttime = pos 1331449200; localtime = pos 1331434800; localtime_idx = 1 }
      ∷ record { gmttime = pos 1352008800; localtime = pos 1351990800; localtime_idx = 0 }
      ∷ [];
  localtimes = standard ∷ daylight ∷ [];
  abbreviation = codes "EST" ++ 0 ∷ (codes "EDT" ++ 0 ∷ []);
}

find_localtime-in_force_example :
    find_localtime new_york (gmt_sentry (pos 1352008799)) true
    ≡ at new_york.localtimes (in_force true (pos 1352008799) 0 new_york.transitions)
unfolding IsAscending
find_localtime-in_force_example =
    find_localtime-in_force new_york true (gmt_sentry (pos 1352008799)) (refl, tt)

-- `gmtime_r` and `timegm` by the conversions of the same file.
abbrev or_zeroed : Option Tm → Tm
or_zeroed none = zeroed
or_zeroed (some tm) = tm

abbrev or_zero : Option ℤ → ℤ
or_zero none = pos 0
or_zero (some t) = t

abbrev gmtime : ℤ → Tm
gmtime t = or_zeroed (to_utc_time true t)

abbrev timegm : Tm → ℤ
timegm tm = or_zero (from_utc_time tm)

-- 4 July 2012, 16:00:00 UTC.
from_local_time-to_local_time_example :
    (tm : Tm) × (to_local_time gmtime (some new_york) (pos 1341417600) ≡ ok tm)
    × (tm.is_dst ≡ true)
    × (from_local_time gmtime timegm (some new_york) tm ≡ ok (pos 1341417600))
unfolding IsAscending IsOnce in_force at to_utc_time from_utc_fields broken_down days_and_seconds
    get_julian_day_number day_number get_year_month_day date_of week_day
from_local_time-to_local_time_example =
    from_local_time-to_local_time gmtime timegm new_york (pos 1341417600) daylight (refl, tt)
      (refl, tt) refl (refl, (refl, tt)) refl

abbrev header : Header
header = record {
  version = 50;
  reserved = replicate 15 0;
  isgmtcnt = pos 2;
  isstdcnt = pos 2;
  leapcnt = pos 0;
}

new_york-IsZone : IsZone header new_york
unfolding AreTransitions AreLocaltimes at
new_york-IsZone = record {
  reserved_size = refl;
  isgmtcnt_fits = omega arith;
  isstdcnt_fits = omega arith;
  leapcnt_fits = omega arith;
  timecnt_fits = omega arith;
  typecnt_fits = omega arith;
  charcnt_fits = omega arith;
  transitions = (
    record { local = daylight; found = refl; shifted = refl; fits = omega arith },
    (record { local = standard; found = refl; shifted = refl; fits = omega arith }, tt),
  );
  localtimes = (omega arith, (omega arith, tt));
}

read_time_zone_file-zone_bytes_example :
    read_time_zone_file (some (zone_bytes header new_york (0 ∷ 1 ∷ []))) ≡ ok (true, new_york)
read_time_zone_file-zone_bytes_example =
    read_time_zone_file-zone_bytes header new_york (0 ∷ 1 ∷ []) new_york-IsZone

to_local_time-zone_of_file_example :
    (zone : TimeZone) × (zone_of_file (some (codes "TZ")) ≡ ok zone)
    × (valid zone ≡ true)
    × (to_local_time gmtime zone (pos 0) ≡ fault out_of_range)
unfolding bytes_eq
to_local_time-zone_of_file_example =
    to_local_time-zone_of_file gmtime (some (codes "TZ")) (pos 0) refl
