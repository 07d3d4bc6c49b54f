-- ===== src/Zone/Local.antt =====
-- muduo/base/TimeZone.cc: the transitions of a zone, and local time. The element that a null or a
-- dangling reference would name is a fault. `gmtime_r` and `timegm` of the C library are parameters.
pub mod Lookup
pub mod RoundTrip
use cs_note.Common.{
  ℕ, ◌+◌, ◌-◌, Bool, true, false, ◌&&◌, not, Option, none, some, List, [], ◌∷◌, if◌then◌else◌, ◌==◌,
  get_elem?, length, drop, zero, suc, ℤ, pos, ◌+ℤ◌, ◌-ℤ◌, ltb_ℤ, eqb_ℤ, Checked, ok, fault,
  assertion, out_of_range, ◌>>=◌,
}
use cs_note.Zone.{Tm}

pub record Transition : Type 0 where
  pub gmttime : ℤ
  pub localtime : ℤ
  pub localtime_idx : ℕ

pub record Localtime : Type 0 where
  pub gmt_offset : ℤ
  pub is_dst : Bool
  pub arrb_idx : ℕ

-- `Comp`: whether it compares the times of UTC.
abbrev pub key : Bool → Transition → ℤ
key true x = x.gmttime
key false x = x.localtime

abbrev pub compare_less : Bool → Transition → Transition → Bool
compare_less compare_gmt lhs rhs = ltb_ℤ (key compare_gmt lhs) (key compare_gmt rhs)

abbrev pub compare_equal : Bool → Transition → Transition → Bool
compare_equal compare_gmt lhs rhs = eqb_ℤ (key compare_gmt lhs) (key compare_gmt rhs)

-- `names` is never used.
pub record Data : Type 0 where
  pub transitions : List Transition
  pub localtimes : List Localtime
  pub abbreviation : List ℕ

abbrev pub no_data : Data
no_data = record { transitions = []; localtimes = []; abbreviation = [] }

-- An element of a vector.
unfoldable pub at {ℓ} : {A : Type ℓ} → List A → ℕ → Checked A
at [] i = fault out_of_range
at (x ∷ xs) zero = ok x
at (x ∷ xs) (suc i) = at xs i

-- `std::lower_bound`: the position of the first transition that is not less than `sentry`.
unfoldable pub lower_bound : Bool → Transition → List Transition → ℕ
lower_bound c sentry [] = 0
lower_bound c sentry (x ∷ xs) =
    let later = lower_bound c sentry xs in if compare_less c x sentry then suc later else 0

-- Whether no transition is at `sentry` or before it.
abbrev pub precedes : Bool → Transition → List Transition → Bool
precedes c sentry [] = true
precedes c sentry (x ∷ xs) = compare_less c sentry x

-- The transition for a position that is not the end: this one, or the one before.
unfoldable pub step_back : Bool → Transition → List Transition → ℕ → Checked Transition
step_back c sentry transitions i = do
  x ← at transitions i
  if compare_equal c sentry x
      then ok x
      else if i == 0
      then fault assertion
      else at transitions (i - 1)

unfoldable pub find_transition : Bool → Transition → List Transition → Checked Transition
find_transition c sentry transitions =
    let i = lower_bound c sentry transitions in
    if i == length transitions then at transitions (i - 1) else step_back c sentry transitions i

unfoldable pub find_localtime : Data → Transition → Bool → Checked Localtime
find_localtime zone_data sentry c =
    if precedes c sentry zone_data.transitions then at zone_data.localtimes 0 else (do
      x ← find_transition c sentry zone_data.transitions
      at zone_data.localtimes x.localtime_idx)

-- `TimeZone(eastOfUtc, name)`
abbrev pub fixed_zone : ℤ → List ℕ → Data
fixed_zone east_of_utc name = record {
  transitions = [];
  localtimes = record { gmt_offset = east_of_utc; is_dst = false; arrb_idx = 0 } ∷ [];
  abbreviation = name;
}

-- A name ends at the first zero byte.
abbrev pub c_string : List ℕ → List ℕ
c_string [] = []
c_string (x ∷ xs) = if x == 0 then [] else x ∷ c_string xs

-- `TimeZone::Data` behind the `shared_ptr`, which is null in an invalid zone.
abbrev pub TimeZone : Type 0
TimeZone = Option Data

abbrev pub data_of : TimeZone → Checked Data
data_of none = fault assertion
data_of (some d) = ok d

abbrev pub gmt_sentry : ℤ → Transition
gmt_sentry seconds = record { gmttime = seconds; localtime = pos 0; localtime_idx = 0 }

abbrev pub local_sentry : ℤ → Transition
local_sentry seconds = record { gmttime = pos 0; localtime = seconds; localtime_idx = 0 }

module _ (gmtime_r : ℤ → Tm) where
  unfoldable pub to_local_time : TimeZone → ℤ → Checked Tm
  to_local_time zone seconds = do
    zone_data ← data_of zone
    local ← find_localtime zone_data (gmt_sentry seconds) true
    ok (record (gmtime_r (seconds +ℤ local.gmt_offset)) {
      is_dst = local.is_dst;
      gmt_offset = local.gmt_offset;
      zone = c_string (drop local.arrb_idx zone_data.abbreviation);
    })

  -- The hour that a time given as daylight saving time is set back by.
  unfoldable pub hack : TimeZone → Tm → Localtime → ℤ → Checked ℤ
  hack zone local_tm local seconds =
      if local_tm.is_dst
      then (do
        try_tm ← to_local_time zone (seconds -ℤ local.gmt_offset)
        ok (
            if not try_tm.is_dst && (try_tm.hour == local_tm.hour) && (try_tm.min == local_tm.min)
            then seconds -ℤ pos 3600
            else seconds))
      else ok seconds

  unfoldable pub from_local_time : (Tm → ℤ) → TimeZone → Tm → Checked ℤ
  from_local_time timegm zone local_tm = do
    zone_data ← data_of zone
    let seconds = timegm local_tm
    local ← find_localtime zone_data (local_sentry seconds) false
    seconds' ← hack zone local_tm local seconds
    ok (seconds' -ℤ local.gmt_offset)
