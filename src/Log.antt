-- ===== src/Log.antt =====
-- muduo/base/LogStream.h and LogStream.cc (under Linux多线程服务端编程/muduo/muduo/base): integers to
-- text, and the stream that keeps a log line in a buffer of fixed size.
pub mod Convert
pub mod Bounds
pub mod Async
pub mod File
use cs_note.Common.{
  ℕ, zero, suc, ◌+◌, ◌-◌, ◌/◌, ◌%◌, Bool, true, false, Option, none, some, List, [], ◌∷◌, ◌++◌,
  if◌then◌else◌, leb, ltb, ◌==◌, length, get_elem?, codes, ℤ, pos, negsuc, neg_ℕ, is_negative,
  magnitude,
}
use mathlib.Core.List.{reverse}

abbrev pub digits : List ℕ
digits = codes "9876543210123456789"

abbrev pub digits_hex : List ℕ
digits_hex = codes "0123456789ABCDEF"

-- A read of the table; the offsets are in range.
abbrev pub at : List ℕ → ℕ → ℕ
at table i = elim (get_elem? table i) [ none ↦ 0 | some c ↦ c ]

-- `zero[i % 10]` with `zero = digits + 9`: the remainder has the sign of `i`.
unfoldable pub digit_of : ℤ → ℕ
digit_of (pos n) = at digits (9 + n % 10)
digit_of (negsuc n) = at digits (9 - suc n % 10)

-- `i / 10` rounds towards zero.
abbrev pub quotient : ℤ → ℤ
quotient (pos n) = pos (n / 10)
quotient (negsuc n) = neg_ℕ (suc n / 10)

-- `do { … } while (i != 0)`, with fuel.
unfoldable pub convert_loop : ℕ → ℤ → List ℕ
convert_loop zero i = []
convert_loop (suc fuel) i =
    let rest = convert_loop fuel (quotient i) in
    digit_of i ∷ (if magnitude (quotient i) == 0 then [] else rest)

-- `convert(buf, value)`: the characters written before the '\0'. Their number is the result.
unfoldable pub convert : ℤ → List ℕ
convert value =
    reverse
      (convert_loop (suc (magnitude value)) value ++ (if is_negative value then 45 ∷ [] else []))

unfoldable pub convert_hex_loop : ℕ → ℕ → List ℕ
convert_hex_loop zero i = []
convert_hex_loop (suc fuel) i =
    let rest = convert_hex_loop fuel (i / 16) in
    at digits_hex (i % 16) ∷ (if i / 16 == 0 then [] else rest)

unfoldable pub convert_hex : ℕ → List ℕ
convert_hex value = reverse (convert_hex_loop (suc value) value)

-- `FixedBuffer<SIZE>`: the bytes from `data_` to `cur_`.
pub record FixedBuffer : Type 0 where
  pub size : ℕ
  pub written : List ℕ

abbrev pub small_buffer : ℕ
small_buffer = 4000

abbrev pub avail : FixedBuffer → ℕ
avail b = b.size - length b.written

-- What does not fit is dropped whole.
unfoldable pub append : List ℕ → FixedBuffer → FixedBuffer
append buf b = if ltb (length buf) (avail b) then record b { written = b.written ++ buf } else b

-- Bytes written at `current()`, then `add(len)`.
abbrev pub add : List ℕ → FixedBuffer → FixedBuffer
add buf b = record b { written = b.written ++ buf }

abbrev pub reset : FixedBuffer → FixedBuffer
reset b = record b { written = [] }

abbrev pub max_numeric_size : ℕ
max_numeric_size = 32

unfoldable pub format_integer : ℤ → FixedBuffer → FixedBuffer
format_integer v b = if leb max_numeric_size (avail b) then add (convert v) b else b

-- The overloads of `operator<<`. A floating-point number comes as the text that `snprintf` makes of
-- it with "%.12g"; a `Fmt` as the text of its own `snprintf`.
pub data Item : Type 0 where
  boolean : Bool → Item
  integer : ℤ → Item
  pointer : ℕ → Item
  floating : List ℕ → Item
  character : ℕ → Item
  c_string : Option (List ℕ) → Item
  str : List ℕ → Item
  formatted : List ℕ → Item

unfoldable pub put : Item → FixedBuffer → FixedBuffer
put (boolean v) b = append (if v then codes "1" else codes "0") b
put (integer v) b = format_integer v b
put (pointer p) b =
    if leb max_numeric_size (avail b) then add (codes "0x" ++ convert_hex p) b else b
put (floating text) b = if leb max_numeric_size (avail b) then add text b else b
put (character c) b = append (c ∷ []) b
put (c_string none) b = append (codes "(null)") b
put (c_string (some s)) b = append s b
put (str s) b = append s b
put (formatted s) b = append s b

unfoldable pub put_all : List Item → FixedBuffer → FixedBuffer
put_all [] b = b
put_all (i ∷ is) b = put_all is (put i b)

abbrev pub new_stream : FixedBuffer
new_stream = record { size = small_buffer; written = [] }
