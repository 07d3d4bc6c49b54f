-- ===== src/Common/Faults.antt =====
-- Results of code that can stop the program: a failed `assert`, an exception that a container
-- throws, or an `int` that overflows. Everything after the fault is skipped.
use mathlib.Core.Bool.{Bool, true, false}

pub data Fault : Type 0 where
  assertion length_error out_of_range out_of_fuel dangling overflow : Fault

pub data Checked {ℓ} (A : Type ℓ) : Type ℓ where
  ok : A → Checked A
  fault : Fault → Checked A

infixl 5 ◌>>=◌ ◌>>◌
abbrev pub ◌>>=◌ {ℓ κ} : {A : Type ℓ} {B : Type κ} → Checked A → (A → Checked B) → Checked B
ok a >>= f = f a
fault e >>= f = fault e

abbrev pub ◌>>◌ {ℓ} : {B : Type ℓ} → Checked (Unit {0}) → Checked B → Checked B
m >> k = m >>= λ _. k

-- `assert(b)`, in a build that checks assertions.
abbrev pub assert : Bool → Checked (Unit {0})
assert true = ok tt
assert false = fault assertion
