-- ===== src/Zone/File/RoundTrip.antt =====
-- `readTimeZoneFile` of muduo/base/TimeZone.cc on the file of a zone, and on what is not one.
use cs_note.Common.{
  IsInt32, Bool-cases, inl, inr, ℕ, ◌^◌, ◌<◌, ◌≡◌, refl, ap, sym, Bool, true, false, none, some,
  Option, List, [], ◌∷◌, ◌++◌, length, codes, bytes_eq, take, ltb, ℤ, pos, ok, fault, out_of_range,
}
use cs_note.Zone.{Tm}
use cs_note.Zone.Local.{Data, no_data, at, TimeZone, to_local_time, find_localtime}
use cs_note.Zone.File.{load, read_time_zone_file, zone_of, zone_of_file, valid, read_exact}
use cs_note.Zone.File.Pieces.{
  int32_bytes, times_bytes, localtimes_bytes, indices, AreTransitions, AreLocaltimes,
  plus_localtimes, read_exact-Loads, read_int32-Loads, read_times-Loads, read_indices-Loads,
  read_localtimes-Loads, add_transitions-Loads,
}

-- What a zone file has beside the data of the zone.
pub record Header : Type 0 where
  pub version : ℕ
  pub reserved : List ℕ
  pub isgmtcnt : ℤ
  pub isstdcnt : ℤ
  pub leapcnt : ℤ

-- A zone file (see tzfile(5)); `rest` is what follows the names.
abbrev pub zone_bytes : Header → Data → List ℕ → List ℕ
zone_bytes h d rest =
    codes "TZif"
    ++ ((h.version ∷ [])
        ++ (h.reserved
            ++ (int32_bytes h.isgmtcnt
                ++ (int32_bytes h.isstdcnt
                    ++ (int32_bytes h.leapcnt
                        ++ (int32_bytes (pos (length d.transitions))
                            ++ (int32_bytes (pos (length d.localtimes))
                                ++ (int32_bytes (pos (length d.abbreviation))
                                    ++ (times_bytes d.transitions
                                        ++ (indices d.transitions
                                            ++ (localtimes_bytes d.localtimes
                                                ++ (d.abbreviation ++ rest))))))))))))

pub record IsZone (h : Header) (d : Data) : Type 0 where
  pub reserved_size : length h.reserved ≡ 15
  pub isgmtcnt_fits : IsInt32 h.isgmtcnt
  pub isstdcnt_fits : IsInt32 h.isstdcnt
  pub leapcnt_fits : IsInt32 h.leapcnt
  pub timecnt_fits : length d.transitions < 2 ^ 31
  pub typecnt_fits : length d.localtimes < 2 ^ 31
  pub charcnt_fits : length d.abbreviation < 2 ^ 31
  pub transitions : AreTransitions d.localtimes d.transitions
  pub localtimes : AreLocaltimes d.localtimes

-- From the bytes of a zone file, whatever follows them, `readTimeZoneFile` reads the data of the
-- zone: the local times and the names of the file, and every transition with its time by the local
-- clock.
pub read_time_zone_file-zone_bytes :
    (h : Header) (d : Data) (rest : List ℕ)
    → IsZone h d
    → read_time_zone_file (some (zone_bytes h d rest)) ≡ ok (true, d)
unfolding read_time_zone_file load bytes_eq
read_time_zone_file-zone_bytes h d rest v =
    rw
      (
        read_exact-Loads 4 (codes "TZif") no_data refl _,
        read_exact-Loads 1 (h.version ∷ []) no_data refl _,
        read_exact-Loads 15 h.reserved no_data (sym v.reserved_size) _,
        read_int32-Loads h.isgmtcnt no_data v.isgmtcnt_fits _,
        read_int32-Loads h.isstdcnt no_data v.isstdcnt_fits _,
        read_int32-Loads h.leapcnt no_data v.leapcnt_fits _,
        read_int32-Loads (pos (length d.transitions)) no_data v.timecnt_fits _,
        read_int32-Loads (pos (length d.localtimes)) no_data v.typecnt_fits _,
        read_int32-Loads (pos (length d.abbreviation)) no_data v.charcnt_fits _,
        read_times-Loads d.localtimes d.transitions no_data v.transitions _,
        read_indices-Loads d.transitions no_data _,
        read_localtimes-Loads d.localtimes no_data v.localtimes _,
        add_transitions-Loads d.transitions (plus_localtimes no_data d.localtimes) v.transitions _,
        read_exact-Loads (length d.abbreviation) d.abbreviation _ refl rest,
      )
      refl

-- Whether a file was opened and begins as a zone file does.
abbrev pub begins : Option (List ℕ) → Bool
begins none = false
begins (some file) = bytes_eq (take 4 file) (codes "TZif")

read_time_zone_file-no_data :
    (file : Option (List ℕ)) → begins file ≡ false → read_time_zone_file file ≡ ok (true, no_data)
unfolding read_time_zone_file load read_exact
read_time_zone_file-no_data none h = refl
read_time_zone_file-no_data (some file) h = elim (Bool-cases (ltb (length file) 4)) [
  | inl e ↦ rw e refl
  | inr e ↦ rw (e, h) refl
]

-- A zone made of a file that is missing, or that does not begin as a zone file does, is valid, and
-- for every time `toLocalTime` of it takes the first of no local times.
pub to_local_time-zone_of_file :
    (gmtime_r : ℤ → Tm) (file : Option (List ℕ)) (t : ℤ)
    → begins file ≡ false
    → (zone : TimeZone) × (zone_of_file file ≡ ok zone)
      × (valid zone ≡ true)
      × (to_local_time gmtime_r zone t ≡ fault out_of_range)
unfolding to_local_time find_localtime at
to_local_time-zone_of_file gmtime_r file t h =
    (some no_data, ap zone_of (read_time_zone_file-no_data file h), refl, refl)
