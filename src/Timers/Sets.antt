-- ===== src/Timers/Sets.antt =====
-- `std::set` of pairs of numbers, as the list of its members in order.
use cs_note.Common.{
  ℕ, suc, ◌≡◌, refl, Bool, true, false, ◌&&◌, ◌||◌, not, List, [], ◌∷◌, ◌++◌, if◌then◌else◌, ltb,
  ◌==◌, length, arith, inl, inr, Bool-cases,
}

abbrev pub Pair : Type 0
Pair = ℕ × ℕ

abbrev pub pair_eq : Pair → Pair → Bool
pair_eq p q = p.0 == q.0 && p.1 == q.1

abbrev pub pair_lt : Pair → Pair → Bool
pair_lt p q = ltb p.0 q.0 || (p.0 == q.0 && ltb p.1 q.1)

-- `find(x) != end()`
unfoldable pub member : Pair → List Pair → Bool
member x [] = false
member x (y ∷ ys) = pair_eq x y || member x ys

-- What is there already is not inserted again.
unfoldable pub insert : Pair → List Pair → List Pair
insert x [] = x ∷ []
insert x (y ∷ ys) =
    let later = insert x ys in
    if pair_lt x y then x ∷ y ∷ ys else if pair_lt y x then y ∷ later else y ∷ ys

unfoldable pub erase : Pair → List Pair → List Pair
erase x [] = []
erase x (y ∷ ys) = let later = erase x ys in if pair_eq x y then ys else y ∷ later

-- The members before `lower_bound(x)`, and those from it on.
unfoldable pub before_bound : Pair → List Pair → List Pair
before_bound x [] = []
before_bound x (y ∷ ys) = let later = before_bound x ys in if pair_lt y x then y ∷ later else []

unfoldable pub from_bound : Pair → List Pair → List Pair
from_bound x [] = []
from_bound x (y ∷ ys) = let later = from_bound x ys in if pair_lt y x then later else y ∷ ys

-- Every member comes before all later ones.
unfoldable pub IsSorted : List Pair → Type 0
IsSorted [] = Unit {0}
IsSorted (x ∷ xs) = ((y : Pair) → member y xs ≡ true → pair_lt x y ≡ true) × IsSorted xs

pair_eq→ : (x y : Pair) → pair_eq x y ≡ true → x ≡ y
pair_eq→ (a, b) (c, d) h = ground arith

pair_lt_trans : (x y z : Pair) → pair_lt x y ≡ true → pair_lt y z ≡ true → pair_lt x z ≡ true
pair_lt_trans (a, b) (c, d) (e, f) h k = ground arith

pub member-insert :
    (z x : Pair) (l : List Pair) → member z (insert x l) ≡ (pair_eq z x || member z l)
unfolding member insert
member-insert z x [] = refl
member-insert z x (y ∷ ys) = ground (arith, member-insert z x ys)

pub length-insert :
    (x : Pair) (l : List Pair) → member x l ≡ false → length (insert x l) ≡ suc (length l)
unfolding member insert
length-insert x [] h = refl
length-insert x (y ∷ ys) h = ground (arith, length-insert x ys)

pub length-erase :
    (x : Pair) (l : List Pair) → member x l ≡ true → suc (length (erase x l)) ≡ length l
unfolding member erase
length-erase x [] h = ground arith
length-erase x (y ∷ ys) h = ground (arith, length-erase x ys)

pub insert-IsSorted : (x : Pair) (l : List Pair) → IsSorted l → IsSorted (insert x l)
unfolding member insert IsSorted
insert-IsSorted x [] s = (λ z h. absurd (ground arith), tt)
insert-IsSorted x (y ∷ ys) (low, s) = elim (Bool-cases (pair_lt x y)) [
  | inl e ↦ rw e (
    λ z h. elim (Bool-cases (pair_eq z y)) [
      | inl q ↦ rw (pair_eq→ z y q) e
      | inr q ↦ pair_lt_trans x y z e (low z (ground (arith, h)))
    ],
    (low, s),
  )
  | inr e ↦ elim (Bool-cases (pair_lt y x)) [
    | inl f ↦
        rw (e, f)
          (
            λ z h. elim (Bool-cases (pair_eq z x)) [
              | inl q ↦ rw (pair_eq→ z x q) f
              | inr q ↦ low z (ground (arith, h, member-insert z x ys))
            ],
            insert-IsSorted x ys s,
          )
    | inr f ↦ rw (e, f) (low, s)
  ]
]

pub member-erase :
    (z x : Pair) (l : List Pair)
    → IsSorted l
    → member z (erase x l) ≡ (not (pair_eq z x) && member z l)
unfolding member erase IsSorted
member-erase z x [] s = ground arith
member-erase z x (y ∷ ys) (low, s) = ground (arith, member-erase z x ys s, low z, low x)

pub before-append-from : (x : Pair) (l : List Pair) → before_bound x l ++ from_bound x l ≡ l
unfolding before_bound from_bound
before-append-from x [] = refl
before-append-from x (y ∷ ys) = ground (arith, before-append-from x ys)

pub member-before_bound :
    (z x : Pair) (l : List Pair)
    → IsSorted l
    → member z (before_bound x l) ≡ (pair_lt z x && member z l)
unfolding member before_bound IsSorted
member-before_bound z x [] s = ground arith
member-before_bound z x (y ∷ ys) (low, s) =
    ground (arith, member-before_bound z x ys s, low z, pair_lt_trans y z x)

pub member-from_bound :
    (z x : Pair) (l : List Pair)
    → IsSorted l
    → member z (from_bound x l) ≡ (not (pair_lt z x) && member z l)
unfolding member from_bound IsSorted
member-from_bound z x [] s = ground arith
member-from_bound z x (y ∷ ys) (low, s) =
    ground (arith, member-from_bound z x ys s, low z, pair_lt_trans y z x)

pub from_bound-IsSorted : (x : Pair) (l : List Pair) → IsSorted l → IsSorted (from_bound x l)
unfolding from_bound IsSorted
from_bound-IsSorted x [] s = tt
from_bound-IsSorted x (y ∷ ys) (low, s) = ground (arith, from_bound-IsSorted x ys s)

pub erase-IsSorted : (x : Pair) (l : List Pair) → IsSorted l → IsSorted (erase x l)
unfolding member erase IsSorted
erase-IsSorted x [] s = tt
erase-IsSorted x (y ∷ ys) (low, s) = elim (Bool-cases (pair_eq x y)) [
  | inl e ↦ rw e s
  | inr e ↦ rw e (λ z h. low z (ground (arith, h, member-erase z x ys s)), erase-IsSorted x ys s)
]
