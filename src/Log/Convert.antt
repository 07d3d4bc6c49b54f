-- ===== src/Log/Convert.antt =====
-- `convert` of muduo/base/LogStream.cc writes the decimal numeral, whatever the sign.
use mathlib.Core.List.{reverse, reverse-append, reverse-cons}
use cs_note.Common.{
  ℕ, zero, suc, ◌+◌, ◌-◌, ◌/◌, ◌%◌, ◌<◌, ◌≤◌, ◌≡◌, refl, ap, ◌∙◌, true, List, [], ◌∷◌, ◌++◌,
  append-nil, arith, if◌then◌else◌, ◌==◌, ℤ, pos, negsuc, neg_ℕ, magnitude, digits_up, decimal,
  from_decimal, from_decimal-decimal, all_below, all_below-lt, ◌&&◌, Bool-cases, inl, inr,
}
use cs_note.Log.{digits, at, digit_of, quotient, convert_loop, convert}

-- The table read upwards from its zero, and downwards: `c` is '0' plus the distance.
digit_table :
    all_below 10 (λ r. (at digits (9 + r) == 48 + r) && (at digits (9 - r) == 48 + r)) ≡ true
unfolding all_below
digit_table = refl

digit_table-at : (r : ℕ) → r < 10 → (at digits (9 + r) ≡ 48 + r) × (at digits (9 - r) ≡ 48 + r)
digit_table-at r h = ground (arith, all_below-lt 10 _ r digit_table h)

digit_of-magnitude : (i : ℤ) → digit_of i ≡ 48 + magnitude i % 10
unfolding digit_of
digit_of-magnitude (pos n) = (digit_table-at (n % 10) (omega arith)).0
digit_of-magnitude (negsuc n) = (digit_table-at (suc n % 10) (omega arith)).1

magnitude-neg_ℕ : (n : ℕ) → magnitude (neg_ℕ n) ≡ n
magnitude-neg_ℕ zero = refl
magnitude-neg_ℕ (suc n) = refl

magnitude-quotient : (i : ℤ) → magnitude (quotient i) ≡ magnitude i / 10
magnitude-quotient (pos n) = refl
magnitude-quotient (negsuc n) = magnitude-neg_ℕ (suc n / 10)

-- The loop writes the digits of the magnitude: the table is symmetric about its zero.
pub convert_loop-digits_up : (fuel : ℕ) (i : ℤ) → convert_loop fuel i ≡ digits_up fuel (magnitude i)
unfolding convert_loop digits_up
convert_loop-digits_up zero i = refl
convert_loop-digits_up (suc fuel) i =
    rw (digit_of-magnitude i, convert_loop-digits_up fuel (quotient i), magnitude-quotient i)

-- The text of an integer is its decimal numeral, after a '-' if it is negative.
pub convert-decimal :
    (n : ℕ) → (convert (pos n) ≡ decimal n) × (convert (negsuc n) ≡ 45 ∷ decimal (suc n))
unfolding convert decimal
convert-decimal n = (
  rw append-nil (ap reverse (convert_loop-digits_up (suc n) (pos n))),
  reverse-append (convert_loop (suc (suc n)) (negsuc n)) (45 ∷ [])
      ∙ ap (λ l. 45 ∷ reverse l) (convert_loop-digits_up (suc (suc n)) (negsuc n)),
)

-- `std::stoll` of a text: the sign, and the value of the digits.
abbrev pub read_integer : List ℕ → ℤ
read_integer [] = pos 0
read_integer (c ∷ cs) = if c == 45 then neg_ℕ (from_decimal 0 cs) else pos (from_decimal 0 (c ∷ cs))

abbrev AreDigits : List ℕ → Type 0
AreDigits [] = Unit {0}
AreDigits (c ∷ cs) = (48 ≤ c) × AreDigits cs

AreDigits-append : (cs : List ℕ) (c : ℕ) → AreDigits cs → 48 ≤ c → AreDigits (cs ++ c ∷ [])
AreDigits-append [] c h k = (k, tt)
AreDigits-append (d ∷ cs) c h k = (h.0, AreDigits-append cs c h.1 k)

AreDigits-reverse : (cs : List ℕ) → AreDigits cs → AreDigits (reverse cs)
AreDigits-reverse [] h = tt
AreDigits-reverse (c ∷ cs) h =
    rw (reverse-cons c cs) (AreDigits-append (reverse cs) c (AreDigits-reverse cs h.1) h.0)

AreDigits-digits_up : (fuel n : ℕ) → AreDigits (digits_up fuel n)
unfolding digits_up
AreDigits-digits_up zero n = tt
AreDigits-digits_up (suc fuel) n = elim (Bool-cases (n / 10 == 0)) [
  | inl small ↦ rw small (omega arith, tt)
  | inr large ↦ rw large (omega arith, AreDigits-digits_up fuel (n / 10))
]

AreDigits-decimal : (n : ℕ) → AreDigits (decimal n)
unfolding decimal
AreDigits-decimal n = AreDigits-reverse (digits_up (suc n) n) (AreDigits-digits_up (suc n) n)

read_integer_of_digits : (cs : List ℕ) → AreDigits cs → read_integer cs ≡ pos (from_decimal 0 cs)
unfolding from_decimal
read_integer_of_digits [] h = refl
read_integer_of_digits (c ∷ cs) h = ground arith

-- Reading the text back gives the integer: `convert` loses nothing.
pub read_integer-convert : (i : ℤ) → read_integer (convert i) ≡ i
read_integer-convert (pos n) =
    ap read_integer (convert-decimal n).0
    ∙ read_integer_of_digits (decimal n) (AreDigits-decimal n)
    ∙ ap pos (from_decimal-decimal n)
read_integer-convert (negsuc n) =
    ap read_integer (convert-decimal n).1 ∙ ap neg_ℕ (from_decimal-decimal (suc n))
