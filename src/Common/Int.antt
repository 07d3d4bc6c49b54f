-- ===== src/Common/Int.antt =====
-- Signed integers over the native numbers, under the library's names.
use cs_note.Common.Tests.{ltb, leb, ◌==◌, if◌then◌else◌}
use Prim.Native.Nat.{ℕ, zero, suc, ◌+◌, ◌-◌, ◌*◌, ◌/◌, ◌%◌, ◌<◌}
use Prim.Native.Nat.{◌^◌}
use mathlib.Core.Path.{◌≡◌}
use mathlib.Core.Logic.{◌↔◌}
use mathlib.Core.Bool.{Bool, true, false}
use native.Mathlib.Omega.{arith}

-- `negsuc n` is -(n + 1).
pub data ℤ : Type 0 where
  pos : ℕ → ℤ
  negsuc : ℕ → ℤ

-- -n
abbrev pub neg_ℕ : ℕ → ℤ
neg_ℕ zero = pos zero
neg_ℕ (suc n) = negsuc n

abbrev pub is_negative : ℤ → Bool
is_negative (pos n) = false
is_negative (negsuc n) = true

abbrev pub magnitude : ℤ → ℕ
magnitude (pos n) = n
magnitude (negsuc n) = suc n

-- a - b on natural numbers, with its sign.
abbrev pub sub_ℕ : ℕ → ℕ → ℤ
sub_ℕ a b = if leb b a then pos (a - b) else negsuc (b - a - 1)

infixl 60 ◌+ℤ◌ ◌-ℤ◌
abbrev pub ◌+ℤ◌ : ℤ → ℤ → ℤ
pos a +ℤ pos b = pos (a + b)
pos a +ℤ negsuc b = sub_ℕ a (suc b)
negsuc a +ℤ pos b = sub_ℕ b (suc a)
negsuc a +ℤ negsuc b = negsuc (a + b + 1)

abbrev pub neg : ℤ → ℤ
neg (pos n) = neg_ℕ n
neg (negsuc n) = pos (suc n)

abbrev pub ◌-ℤ◌ : ℤ → ℤ → ℤ
a -ℤ b = a +ℤ neg b

-- A product with a constant that is not negative.
infixl 70 ◌*ℕ◌
abbrev pub ◌*ℕ◌ : ℤ → ℕ → ℤ
pos a *ℕ n = pos (a * n)
negsuc a *ℕ n = neg_ℕ (suc a * n)

-- The quotient and the remainder of C, towards zero, by a constant that is not negative.
infixl 70 ◌/ℕ◌ ◌%ℕ◌
abbrev pub ◌/ℕ◌ : ℤ → ℕ → ℤ
pos a /ℕ n = pos (a / n)
negsuc a /ℕ n = neg_ℕ (suc a / n)

abbrev pub ◌%ℕ◌ : ℤ → ℕ → ℤ
pos a %ℕ n = pos (a % n)
negsuc a %ℕ n = neg_ℕ (suc a % n)

abbrev pub ltb_ℤ : ℤ → ℤ → Bool
ltb_ℤ (pos a) (pos b) = ltb a b
ltb_ℤ (pos a) (negsuc b) = false
ltb_ℤ (negsuc a) (pos b) = true
ltb_ℤ (negsuc a) (negsuc b) = ltb b a

abbrev pub eqb_ℤ : ℤ → ℤ → Bool
eqb_ℤ (pos a) (pos b) = a == b
eqb_ℤ (pos a) (negsuc b) = false
eqb_ℤ (negsuc a) (pos b) = false
eqb_ℤ (negsuc a) (negsuc b) = a == b

pub add-sub : (a b : ℤ) → a +ℤ b -ℤ b ≡ a
add-sub a b = ground arith

pub ltb_ℤ_asymm : (a b : ℤ) → ltb_ℤ a b ≡ true → ltb_ℤ b a ≡ false
ltb_ℤ_asymm a b h = ground arith

pub ltb_ℤ_trans : (a b c : ℤ) → ltb_ℤ a b ≡ true → ltb_ℤ b c ≡ true → ltb_ℤ a c ≡ true
ltb_ℤ_trans a b c h k = ground arith

pub ltb_ℤ_irrefl : (a : ℤ) → ltb_ℤ a a ≡ false
ltb_ℤ_irrefl a = ground arith

pub eqb_ℤ_iff : (a b : ℤ) → (eqb_ℤ a b ≡ true) ↔ (a ≡ b)
eqb_ℤ_iff a b = ground arith

-- Of two numbers that are not less the one than the other.
pub ltb_ℤ_connex : (a b : ℤ) → ltb_ℤ a b ≡ false → eqb_ℤ a b ≡ false → ltb_ℤ b a ≡ true
ltb_ℤ_connex a b h k = ground arith

pub less_not_equal : (a b : ℤ) → ltb_ℤ a b ≡ true → eqb_ℤ a b ≡ false
less_not_equal a b h = ground arith

pub ltb_ℤ_less_le : (a b c : ℤ) → ltb_ℤ a b ≡ true → ltb_ℤ c b ≡ false → ltb_ℤ a c ≡ true
ltb_ℤ_less_le a b c h k = ground arith

-- An int32_t, from its bit pattern.
abbrev pub int32_of : ℕ → ℤ
int32_of w = if ltb w (2 ^ 31) then pos w else negsuc (2 ^ 32 - 1 - w)

-- The bit pattern of an int32_t.
abbrev pub word : ℤ → ℕ
word (pos n) = n
word (negsuc n) = 2 ^ 32 - 1 - n

abbrev pub IsInt32 : ℤ → Type 0
IsInt32 (pos n) = n < 2 ^ 31
IsInt32 (negsuc n) = n < 2 ^ 31

pub int32_of-word : (z : ℤ) → IsInt32 z → int32_of (word z) ≡ z
int32_of-word (pos n) h = ground arith
int32_of-word (negsuc n) h = ground arith

pub word-lt : (z : ℤ) → IsInt32 z → word z < 2 ^ 32
word-lt (pos n) h = omega arith
word-lt (negsuc n) h = omega arith
