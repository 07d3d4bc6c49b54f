-- ===== src/Common/Bytes.antt =====
-- Byte strings: `std::string` as a list of bytes, its comparisons, `std::find`, and `std::map` with
-- string keys as the list of its entries in key order.
use Prim.Native.Char.{code}
use Prim.Native.String.{String}
use cs_note.Common.Tests.{ltb, ◌==◌, if◌then◌else◌}
use Prim.Native.Nat.{ℕ}
use mathlib.Core.Path.{◌≡◌, refl}
use mathlib.Core.Logic.{◌↔◌}
use mathlib.Core.Bool.{Bool, true, false, ◌&&◌, ◌||◌}
use mathlib.Core.Option
use mathlib.Core.Option.{Option, none, some}
use mathlib.Core.List.{List, [], ◌∷◌, ◌++◌}
use native.Mathlib.Omega.{arith}

-- The bytes of an ASCII literal.
abbrev pub codes : String → List ℕ
codes String.[] = []
codes (String.◌∷◌ c s) = code c ∷ codes s

unfoldable pub bytes_eq : List ℕ → List ℕ → Bool
bytes_eq [] [] = true
bytes_eq [] (y ∷ ys) = false
bytes_eq (x ∷ xs) [] = false
bytes_eq (x ∷ xs) (y ∷ ys) = x == y && bytes_eq xs ys

-- operator< of strings.
unfoldable pub bytes_lt : List ℕ → List ℕ → Bool
bytes_lt xs [] = false
bytes_lt [] (y ∷ ys) = true
bytes_lt (x ∷ xs) (y ∷ ys) = ltb x y || (x == y && bytes_lt xs ys)

pub bytes_eq_iff : (xs ys : List ℕ) → (bytes_eq xs ys ≡ true) ↔ (xs ≡ ys)
unfolding bytes_eq
bytes_eq_iff [] [] = ground arith
bytes_eq_iff [] (y ∷ ys) = ground arith
bytes_eq_iff (x ∷ xs) [] = ground arith
bytes_eq_iff (x ∷ xs) (y ∷ ys) = ground (arith, bytes_eq_iff xs ys)

-- `std::find(begin, end, c)`: what stands before the first `c`, and what stands behind it.
unfoldable pub break_at : ℕ → List ℕ → Option (List ℕ × List ℕ)
break_at c [] = none
break_at c (x ∷ xs) =
    let later = Option.map (λ (p : List ℕ × List ℕ). (x ∷ p.0, p.1)) (break_at c xs) in
    if x == c then some ([], xs) else later

unfoldable pub has_byte : ℕ → List ℕ → Bool
has_byte c [] = false
has_byte c (x ∷ xs) = x == c || has_byte c xs

pub break_at-append :
    (c : ℕ) (before after : List ℕ)
    → has_byte c before ≡ false
    → break_at c (before ++ c ∷ after) ≡ some (before, after)
unfolding break_at has_byte
break_at-append c [] after h = ground arith
break_at-append c (x ∷ before) after h = ground (arith, break_at-append c before after)

pub break_at-none : (c : ℕ) (xs : List ℕ) → has_byte c xs ≡ false → break_at c xs ≡ none
unfolding break_at has_byte
break_at-none c [] h = refl
break_at-none c (x ∷ xs) h = ground (arith, break_at-none c xs)

abbrev pub Map : Type 0
Map = List (List ℕ × List ℕ)

-- `m[k] = v`
unfoldable pub assign : List ℕ → List ℕ → Map → Map
assign k v [] = (k, v) ∷ []
assign k v ((j, w) ∷ m) =
    let rest = assign k v m in
    if bytes_eq j k then (k, v) ∷ m else if bytes_lt k j then (k, v) ∷ (j, w) ∷ m else (j, w) ∷ rest

-- `m.find(k)`
unfoldable pub lookup : List ℕ → Map → Option (List ℕ)
lookup k [] = none
lookup k ((j, w) ∷ m) = let rest = lookup k m in if bytes_eq j k then some w else rest

pub lookup-assign :
    (k j v : List ℕ) (m : Map)
    → lookup j (assign k v m) ≡ (if bytes_eq k j then some v else lookup j m)
unfolding lookup assign
lookup-assign k j v [] = refl
lookup-assign k j v ((i, w) ∷ m) =
    ground (arith, bytes_eq_iff k j, bytes_eq_iff i k, bytes_eq_iff i j, lookup-assign k j v m)
