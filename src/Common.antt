-- ===== src/Common.antt =====
-- The names that every component shares: the libraries', passed on, and those of its children.
-- `Tests` holds the Boolean tests, `Lists` the sequences, `Faults` the results of code that asserts,
-- `Words` the machine integers, `Bytes` the strings and the maps keyed by strings,
-- `Int` the signed numbers, `Digits` the numerals.
mod Tests
mod Lists
mod Faults
mod Words
mod Bytes
mod Int
mod Digits
unfoldable pub use Tests.*
pub use Lists.*
pub use Faults.*
unfoldable pub use Words.*
unfoldable pub use Bytes.*
pub use Int.*
unfoldable pub use Digits.*
pub use Prim.Native.Nat.{ℕ, zero, suc, ◌+◌, ◌-◌, ◌*◌, ◌/◌, ◌%◌, ◌^◌, ◌≤◌, ◌<◌, min}
pub use mathlib.Core.Path.{◌≡◌, refl, sym, ap, ap₂, ◌∙◌, subst}
pub use mathlib.Core.Logic.{◌≢◌, ◌↔◌, ◌⊎◌, inl, inr}
pub use mathlib.Core.Bool.{Bool, true, false, ◌&&◌, ◌||◌, not}
pub use mathlib.Core.Option.{Option, none, some}
pub use mathlib.Core.List.{List, [], ◌∷◌, ◌++◌, append-nil, append_assoc, map}
pub use native.Mathlib.Omega.{arith}
