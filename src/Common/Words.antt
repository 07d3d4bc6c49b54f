-- ===== src/Common/Words.antt =====
-- `size_t` on a 64-bit machine, and the big-endian bytes of an integer.
use Prim.Native.Nat.{ℕ, zero, suc, ◌+◌, ◌-◌, ◌*◌, ◌/◌, ◌%◌, ◌^◌, ◌<◌}
use mathlib.Core.Path.{◌≡◌, refl}
use mathlib.Core.List.{List, [], ◌∷◌, ◌++◌}
use native.Mathlib.Omega.{arith}
use native.Mathlib.Nat.{pow-suc}
use cs_note.Common.Lists.{length, length-append}

abbrev pub size_mod : ℕ
size_mod = 2 ^ 64

-- Unsigned sums and differences wrap.
abbrev pub add_size : ℕ → ℕ → ℕ
add_size a b = (a + b) % size_mod

abbrev pub sub_size : ℕ → ℕ → ℕ
sub_size a b = (a + size_mod - b) % size_mod

-- `vector<char>::max_size()`: the largest `ptrdiff_t`.
abbrev pub max_size : ℕ
max_size = 2 ^ 63 - 1

-- The `k` bytes of an integer in network order, the most significant first.
unfoldable pub be_bytes : ℕ → ℕ → List ℕ
be_bytes zero x = []
be_bytes (suc k) x = be_bytes k (x / 256) ++ x % 256 ∷ []

unfoldable pub from_be : ℕ → List ℕ → ℕ
from_be acc [] = acc
from_be acc (d ∷ ds) = from_be (acc * 256 + d) ds

pub length-be_bytes : (k x : ℕ) → length (be_bytes k x) ≡ k
unfolding be_bytes
length-be_bytes zero x = refl
length-be_bytes (suc k) x =
    omega (arith, length-append (be_bytes k (x / 256)) (x % 256 ∷ []), length-be_bytes k (x / 256))

from_be-append :
    (acc : ℕ) (xs : List ℕ) (d : ℕ) → from_be acc (xs ++ d ∷ []) ≡ from_be acc xs * 256 + d
unfolding from_be
from_be-append acc [] d = refl
from_be-append acc (x ∷ xs) d = from_be-append (acc * 256 + x) xs d

pub from_be-be_bytes : (k x : ℕ) → x < 256 ^ k → from_be 0 (be_bytes k x) ≡ x
unfolding be_bytes from_be
from_be-be_bytes zero x h = omega arith
from_be-be_bytes (suc k) x h = omega (
  arith,
  from_be-append 0 (be_bytes k (x / 256)) (x % 256),
  from_be-be_bytes k (x / 256) (omega (arith, pow-suc 256 k)),
)
