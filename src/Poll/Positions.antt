-- ===== src/Poll/Positions.antt =====
-- Positions in the array of muduo/net/poller/PollPoller.cc.
use cs_note.Common.{
  ℕ, zero, suc, ◌-◌, ◌≡◌, ◌<◌, refl, false, none, some, List, [], ◌∷◌, ◌++◌, if◌then◌else◌, ◌==◌,
  ltb, length, get_elem?, set, arith,
}
use cs_note.Poll.{PollFd, pop_back}

pub get_elem?-lt : (xs : List PollFd) (m : ℕ) (f : PollFd) → get_elem? xs m ≡ some f → m < length xs
get_elem?-lt [] m f h = absurd (ground arith)
get_elem?-lt (x ∷ xs) zero f h = ground arith
get_elem?-lt (x ∷ xs) (suc m) f h = ground (arith, get_elem?-lt xs m f h)

pub get_elem?-below :
    (xs : List PollFd) (m : ℕ) → m < length xs → (f : PollFd) × (get_elem? xs m ≡ some f)
get_elem?-below [] m h = absurd (ground arith)
get_elem?-below (x ∷ xs) zero h = (x, refl)
get_elem?-below (x ∷ xs) (suc m) h = get_elem?-below xs m (ground arith)

pub get_elem?-set :
    (xs : List PollFd) (n m : ℕ) (f : PollFd)
    → n < length xs
    → get_elem? (set xs n f) m ≡ (if m == n then some f else get_elem? xs m)
get_elem?-set [] n m f h = absurd (ground arith)
get_elem?-set (x ∷ xs) zero zero f h = refl
get_elem?-set (x ∷ xs) zero (suc m) f h = ground arith
get_elem?-set (x ∷ xs) (suc n) zero f h = ground arith
get_elem?-set (x ∷ xs) (suc n) (suc m) f h = ground (arith, get_elem?-set xs n m f (ground arith))

pub length-set : (xs : List PollFd) (n : ℕ) (f : PollFd) → length (set xs n f) ≡ length xs
length-set [] n f = refl
length-set (x ∷ xs) zero f = refl
length-set (x ∷ xs) (suc n) f = ground (arith, length-set xs n f)

pub get_elem?-push :
    (xs : List PollFd) (m : ℕ) (f : PollFd)
    → get_elem? (xs ++ f ∷ []) m ≡ (if m == length xs then some f else get_elem? xs m)
get_elem?-push [] zero f = refl
get_elem?-push [] (suc m) f = ground arith
get_elem?-push (x ∷ xs) zero f = ground arith
get_elem?-push (x ∷ xs) (suc m) f = ground (arith, get_elem?-push xs m f)

pub get_elem?-pop_back :
    (xs : List PollFd) (m : ℕ)
    → get_elem? (pop_back xs) m ≡ (if ltb (suc m) (length xs) then get_elem? xs m else none)
get_elem?-pop_back [] m = ground arith
get_elem?-pop_back (x ∷ []) m = ground arith
get_elem?-pop_back (x ∷ y ∷ ys) zero = ground arith
get_elem?-pop_back (x ∷ y ∷ ys) (suc m) = ground (arith, get_elem?-pop_back (y ∷ ys) m)

get_elem?-past : (xs : List PollFd) (m : ℕ) → ltb m (length xs) ≡ false → get_elem? xs m ≡ none
get_elem?-past [] m h = refl
get_elem?-past (x ∷ xs) zero h = absurd (ground (arith, h))
get_elem?-past (x ∷ xs) (suc m) h = get_elem?-past xs m (ground (arith, h))

-- The last entry is gone.
pub get_elem?-pop :
    (xs : List PollFd) (m : ℕ)
    → get_elem? (pop_back xs) m ≡ (if m == length xs - 1 then none else get_elem? xs m)
get_elem?-pop xs m = ground (arith, get_elem?-pop_back xs m, get_elem?-past xs m)

-- The last entry has changed places with another, which is gone.
pub get_elem?-swap :
    (xs : List PollFd) (k m : ℕ) (f g : PollFd)
    → k < length xs
    → get_elem? (pop_back (set (set xs k g) (length xs - 1) f)) m
      ≡ (if m == length xs - 1 then none else if m == k then some g else get_elem? xs m)
get_elem?-swap xs k m f g h =
    let ys = set xs k g in
    ground (
      arith,
      get_elem?-pop (set ys (length xs - 1) f) m,
      length-set ys (length xs - 1) f,
      length-set xs k g,
      get_elem?-set ys (length xs - 1) m f (ground (arith, h, length-set xs k g)),
      get_elem?-set xs k m g h,
    )
