-- ===== src/Zone/File.antt =====
-- muduo/base/TimeZone.cc: `File`, `readTimeZoneFile` and the zone that is made of a file. A file is
-- its bytes. What the `try` block has put into the data stays there when it throws.

pub mod Pieces
pub mod RoundTrip
use cs_note.Common.{
  int32_of, ℕ, zero, suc, ◌-◌, ◌^◌, Bool, true, false, not, Option, none, some, List, [], ◌∷◌, ◌++◌,
  if◌then◌else◌, ltb, ◌==◌, take, drop, length, codes, bytes_eq, ℤ, pos, negsuc, ◌+ℤ◌, from_be,
  Fault, Checked, ok, fault, out_of_range,
}
use cs_note.Zone.Local.{Transition, Localtime, Data, no_data, TimeZone, at}

-- What of the file is still to be read, and the data of the zone.
pub record Source : Type 0 where
  pub input : List ℕ
  pub zone_data : Data

-- `threw` is a `logic_error`; `broken` is an access that C++ does not define.
pub data Outcome (A : Type 0) : Type 0 where
  returned : A → Source → Outcome A
  threw : Source → Outcome A
  broken : Fault → Outcome A

abbrev pub Load : Type 0 → Type 0
Load A = Source → Outcome A

abbrev pub after : {A B : Type 0} → Outcome A → (A → Load B) → Outcome B
after (returned a s) f = f a s
after (threw s) f = threw s
after (broken e) f = broken e

infixl 5 ◌>>=◌ ◌>>◌
abbrev pub ◌>>=◌ : {A B : Type 0} → Load A → (A → Load B) → Load B
m >>= f = λ s. after (m s) f

abbrev pub ◌>>◌ : {A B : Type 0} → Load A → Load B → Load B
m >> k = m >>= λ _. k

abbrev pub pure : {A : Type 0} → A → Load A
pure a = returned a

abbrev throw : {A : Type 0} → Load A
throw = threw

-- The first bytes of a file that has them.
unfoldable pub read_exact : ℕ → Load (List ℕ)
read_exact n s =
    if ltb (length s.input) n
    then threw s
    else returned (take n s.input) (record s { input = drop n s.input })

-- `char buf[n]` has to have a size.
abbrev pub read_bytes : ℤ → Load (List ℕ)
read_bytes (pos n) = read_exact n
read_bytes (negsuc n) = λ s. broken out_of_range

unfoldable pub read_int32 : Load ℤ
read_int32 = do bytes ← read_exact 4; pure (int32_of (from_be 0 bytes))

unfoldable pub read_uint8 : Load ℕ
read_uint8 = do bytes ← read_exact 1; pure (from_be 0 bytes)

-- The loops that push what they read to a vector. A count that is not positive reads nothing.
abbrev pub count : ℤ → ℕ
count (pos n) = n
count (negsuc n) = 0

unfoldable pub read_times : ℕ → Load (List ℤ)
read_times zero = pure []
read_times (suc n) = do t ← read_int32; ts ← read_times n; pure (t ∷ ts)

unfoldable pub read_indices : ℕ → Load (List ℕ)
read_indices zero = pure []
read_indices (suc n) = do i ← read_uint8; is ← read_indices n; pure (i ∷ is)

abbrev pub push_localtime : Localtime → Load (Unit {0})
push_localtime x s =
    let d = s.zone_data in
    returned tt (record s { zone_data = record d { localtimes = d.localtimes ++ x ∷ [] } })

abbrev pub push_transition : Transition → Load (Unit {0})
push_transition x s =
    let d = s.zone_data in
    returned tt (record s { zone_data = record d { transitions = d.transitions ++ x ∷ [] } })

unfoldable pub read_localtimes : ℕ → Load (Unit {0})
read_localtimes zero = pure tt
read_localtimes (suc n) = do
  gmtoff ← read_int32
  isdst ← read_uint8
  abbrind ← read_uint8
  push_localtime (record { gmt_offset = gmtoff; is_dst = not (isdst == 0); arrb_idx = abbrind })
  read_localtimes n

-- `data->localtimes[i]`, with no check of `i`.
abbrev pub localtime_at : ℕ → Load Localtime
localtime_at i s = stored (at s.zone_data.localtimes i)
  where
    stored : Checked Localtime → Outcome Localtime
    stored (ok x) = returned x s
    stored (fault e) = broken e

unfoldable pub add_transitions : List ℤ → List ℕ → Load (Unit {0})
add_transitions [] is = pure tt
add_transitions (t ∷ ts) [] = λ s. broken out_of_range
add_transitions (t ∷ ts) (i ∷ is) = do
  x ← localtime_at i
  push_transition (record { gmttime = t; localtime = t +ℤ x.gmt_offset; localtime_idx = i })
  add_transitions ts is

abbrev set_abbreviation : List ℕ → Load (Unit {0})
set_abbreviation name s =
    let d = s.zone_data in returned tt (record s { zone_data = record d { abbreviation = name } })

-- `vector::reserve`: a negative count is too large a size, and its `length_error` a `logic_error`.
abbrev pub reserve : ℤ → Load (Unit {0})
reserve (pos n) = pure tt
reserve (negsuc n) = throw

-- The `try` block.
unfoldable pub load : Load (Unit {0})
load = do
  head ← read_bytes (pos 4)
  if bytes_eq head (codes "TZif") then pure tt else throw
  version ← read_bytes (pos 1)
  reserved ← read_bytes (pos 15)
  isgmtcnt ← read_int32
  isstdcnt ← read_int32
  leapcnt ← read_int32
  timecnt ← read_int32
  typecnt ← read_int32
  charcnt ← read_int32
  reserve timecnt
  trans ← read_times (count timecnt)
  localtimes ← read_indices (count timecnt)
  read_localtimes (count typecnt)
  add_transitions trans localtimes
  name ← read_bytes charcnt
  set_abbreviation name

abbrev pub caught : {A : Type 0} → Outcome A → Checked (Bool × Data)
caught (returned a s) = ok (true, s.zone_data)
caught (threw s) = ok (true, s.zone_data)
caught (broken e) = fault e

-- The result and `*data`, which was empty, of the file if `fopen` opens it.
unfoldable pub read_time_zone_file : Option (List ℕ) → Checked (Bool × Data)
read_time_zone_file none = ok (true, no_data)
read_time_zone_file (some file) = caught (load (record { input = file; zone_data = no_data }))

-- `TimeZone(zonefile)`: `data_` is reset if the function returns false.
abbrev pub zone_of : Checked (Bool × Data) → Checked TimeZone
zone_of (ok (true, d)) = ok (some d)
zone_of (ok (false, d)) = ok none
zone_of (fault e) = fault e

abbrev pub zone_of_file : Option (List ℕ) → Checked TimeZone
zone_of_file file = zone_of (read_time_zone_file file)

-- `valid`
abbrev pub valid : TimeZone → Bool
valid none = false
valid (some d) = true
