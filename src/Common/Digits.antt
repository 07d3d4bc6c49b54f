-- ===== src/Common/Digits.antt =====
-- Numerals: the digits of a number in a base, and the number that digits stand for.
use Prim.Native.Nat.{ℕ, zero, suc, ◌+◌, ◌-◌, ◌*◌, ◌/◌, ◌%◌, ◌^◌, ◌≤◌, ◌<◌}
use mathlib.Core.Path.{◌≡◌, refl, ap, ◌∙◌}
use mathlib.Core.Logic.{inl, inr}
use mathlib.Core.List.{List, [], ◌∷◌, ◌++◌, reverse, reverse-cons}
use native.Mathlib.Omega.{arith}
use native.Mathlib.Nat.{pow-suc}
use cs_note.Common.Tests.{◌==◌, if◌then◌else◌, Bool-cases}
use cs_note.Common.Lists.{length, length-append}

-- Least significant digit first, one digit at least; the fuel bounds their number.
unfoldable pub digits_up : ℕ → ℕ → List ℕ
digits_up zero n = []
digits_up (suc fuel) n =
    let rest = digits_up fuel (n / 10) in (48 + n % 10) ∷ (if n / 10 == 0 then [] else rest)

-- `snprintf("%d")` of a number that is not negative.
unfoldable pub decimal : ℕ → List ℕ
unfolding digits_up
decimal n = reverse (digits_up (suc n) n)

-- What a numeral stands for.
unfoldable pub from_decimal : ℕ → List ℕ → ℕ
from_decimal acc [] = acc
from_decimal acc (c ∷ cs) = from_decimal (acc * 10 + (c - 48)) cs

from_decimal-append :
    (acc : ℕ) (cs : List ℕ) (c : ℕ)
    → from_decimal acc (cs ++ c ∷ []) ≡ from_decimal acc cs * 10 + (c - 48)
unfolding from_decimal
from_decimal-append acc [] c = refl
from_decimal-append acc (d ∷ cs) c = from_decimal-append (acc * 10 + (d - 48)) cs c

from_decimal-rest :
    (fuel n : ℕ)
    → (n / 10 < fuel → from_decimal 0 (reverse (digits_up fuel (n / 10))) ≡ n / 10)
    → n < suc fuel
    → from_decimal 0 (reverse (if n / 10 == 0 then [] else digits_up fuel (n / 10))) * 10
        + (48 + n % 10 - 48)
      ≡ n
unfolding from_decimal
from_decimal-rest fuel n ih h = elim (Bool-cases (n / 10 == 0)) [
  | inl small ↦ rw small (ground arith)
  | inr large ↦ rw large (ground (arith, ih))
]

from_decimal-digits_up : (fuel n : ℕ) → n < fuel → from_decimal 0 (reverse (digits_up fuel n)) ≡ n
unfolding digits_up
from_decimal-digits_up zero n h = absurd (omega arith)
from_decimal-digits_up (suc fuel) n h =
    let rest : List ℕ = if n / 10 == 0 then [] else digits_up fuel (n / 10) in
    let last : ℕ = 48 + n % 10 in
    ap (from_decimal 0) (reverse-cons last rest)
    ∙ from_decimal-append 0 (reverse rest) last
    ∙ from_decimal-rest fuel n (λ lt. from_decimal-digits_up fuel (n / 10) lt) h

pub from_decimal-decimal : (n : ℕ) → from_decimal 0 (decimal n) ≡ n
unfolding decimal
from_decimal-decimal n = from_decimal-digits_up (suc n) n (omega arith)

pub length-reverse : (xs : List ℕ) → length (reverse xs) ≡ length xs
length-reverse [] = refl
length-reverse (x ∷ xs) =
    ap length (reverse-cons x xs)
    ∙ omega (arith, length-append (reverse xs) (x ∷ []), length-reverse xs)

-- A number below 10 ^ k has k digits at most, or one.
pub length-digits_up : (k fuel n : ℕ) → n < 10 ^ suc k → length (digits_up fuel n) ≤ suc k
unfolding digits_up
length-digits_up k zero n h = omega arith
length-digits_up zero (suc fuel) n h = ground (arith, pow-suc 10 0)
length-digits_up (suc k) (suc fuel) n h =
    ground (arith, pow-suc 10 (suc k), length-digits_up k fuel (n / 10))

pub length-decimal : (k n : ℕ) → n < 10 ^ suc k → length (decimal n) ≤ suc k
unfolding decimal
length-decimal k n h =
    omega (arith, length-reverse (digits_up (suc n) n), length-digits_up k (suc n) n h)
