-- ===== src/Zone/Local/Lookup.antt =====
-- The search of `findLocaltime` against the rule that it stands for.
use cs_note.Common.{
  ℕ, zero, suc, ◌-◌, ◌≡◌, refl, sym, Bool, true, false, Bool-cases, inl, inr, List, [], ◌∷◌,
  if◌then◌else◌, ◌==◌, length, ℤ, ltb_ℤ, eqb_ℤ, Checked, ok, fault, ◌>>=◌, arith, ltb_ℤ_asymm,
  ltb_ℤ_irrefl, ltb_ℤ_connex, eqb_ℤ_iff, less_not_equal, ltb_ℤ_less_le, subst,
}
use cs_note.Zone.Local.{
  Transition, Data, key, compare_less, compare_equal, at, lower_bound, step_back, find_transition,
  find_localtime,
}

-- The index that is in force at `t`: that of the last transition whose time is not after `t`, and
-- `idx` before the first.
unfoldable pub in_force : Bool → ℤ → ℕ → List Transition → ℕ
in_force c t idx [] = idx
in_force c t idx (x ∷ xs) =
    let later = in_force c t x.localtime_idx xs in if ltb_ℤ t (key c x) then idx else later

-- Each transition is later than the one before it.
unfoldable pub IsAscending : Bool → List Transition → Type 0
IsAscending c [] = Unit {0}
IsAscending c (x ∷ []) = Unit {0}
IsAscending c (x ∷ y ∷ xs) = (compare_less c x y ≡ true) × IsAscending c (y ∷ xs)

-- The same rule, with the transition.
unfoldable in_force_at : Bool → ℤ → Transition → List Transition → Transition
in_force_at c t x [] = x
in_force_at c t x (y ∷ ys) =
    let later = in_force_at c t y ys in if ltb_ℤ t (key c y) then x else later

bind-ok :
    {A B : Type 0} (r : Checked A) (f f' : A → Checked B) (b : B)
    → ((a : A) → f a ≡ ok b → f' a ≡ ok b)
    → (r >>= f) ≡ ok b
    → (r >>= f') ≡ ok b
bind-ok (ok a) f f' b h e = h a e
bind-ok (fault x) f f' b h e = absurd (ground arith)

-- An element in front moves the positions by one.
step_back-cons :
    (c : Bool) (s x g : Transition) (xs : List Transition) (i : ℕ)
    → step_back c s xs i ≡ ok g
    → step_back c s (x ∷ xs) (suc i) ≡ ok g
unfolding step_back at
step_back-cons c s x g xs zero e = bind-ok (at xs 0) _ _ g (λ y h. ground arith) e
step_back-cons c s x g xs (suc i) e = bind-ok (at xs (suc i)) _ _ g (λ y h. ground arith) e

abbrev find_at : Bool → Transition → List Transition → ℕ → Checked Transition
find_at c s xs i = if i == length xs then at xs (i - 1) else step_back c s xs i

find_at-cons :
    (c : Bool) (s x g : Transition) (xs : List Transition) (i : ℕ)
    → find_at c s xs i ≡ ok g
    → find_at c s (x ∷ xs) (suc i) ≡ ok g
unfolding at
find_at-cons c s x g [] zero e = absurd (ground arith)
find_at-cons c s x g (y ∷ ys) zero e = ground (arith, step_back-cons c s x g (y ∷ ys) zero)
find_at-cons c s x g xs (suc i) e = ground (arith, step_back-cons c s x g xs (suc i))

find_transition-cons :
    (c : Bool) (s x g : Transition) (xs : List Transition)
    → compare_less c x s ≡ true
    → find_transition c s xs ≡ ok g
    → find_transition c s (x ∷ xs) ≡ ok g
unfolding find_transition lower_bound
find_transition-cons c s x g xs less e = rw less (find_at-cons c s x g xs (lower_bound c s xs) e)

-- At the time of a transition, and between it and the next one.
find_transition-same :
    (c : Bool) (s x : Transition) (xs : List Transition)
    → key c x ≡ key c s
    → find_transition c s (x ∷ xs) ≡ ok x
unfolding find_transition lower_bound step_back at
find_transition-same c s x xs e =
    let less : compare_less c x s ≡ false =
      subst (λ k. ltb_ℤ k (key c s) ≡ false) (sym e) (ltb_ℤ_irrefl (key c s)) in
    let equal : compare_equal c s x ≡ true = (eqb_ℤ_iff (key c s) (key c x)).1 (sym e) in
    ground arith

find_transition-between :
    (c : Bool) (s x y : Transition) (xs : List Transition)
    → compare_less c x s ≡ true
    → compare_less c s y ≡ true
    → find_transition c s (x ∷ y ∷ xs) ≡ ok x
unfolding find_transition lower_bound step_back at
find_transition-between c s x y xs l r =
    rw (l, ltb_ℤ_asymm (key c s) (key c y) r, less_not_equal (key c s) (key c y) r) (ground arith)

find_transition-last :
    (c : Bool) (s x : Transition) → compare_less c x s ≡ true → find_transition c s (x ∷ []) ≡ ok x
unfolding find_transition lower_bound at
find_transition-last c s x l = rw l refl

find_transition-in_force_at :
    (c : Bool) (s x : Transition) (xs : List Transition)
    → IsAscending c (x ∷ xs)
    → ltb_ℤ (key c s) (key c x) ≡ false
    → find_transition c s (x ∷ xs) ≡ ok (in_force_at c (key c s) x xs)
unfolding in_force_at IsAscending
find_transition-in_force_at c s x [] up h = elim (Bool-cases (eqb_ℤ (key c s) (key c x))) [
  | inl e ↦ find_transition-same c s x [] (sym ((eqb_ℤ_iff (key c s) (key c x)).0 e))
  | inr e ↦ find_transition-last c s x (ltb_ℤ_connex (key c s) (key c x) h e)
]
find_transition-in_force_at c s x (y ∷ ys) (up, ups) h =
    elim (Bool-cases (ltb_ℤ (key c s) (key c y))) [
      | inl e ↦ rw e (elim (Bool-cases (eqb_ℤ (key c s) (key c x))) [
        | inl f ↦ find_transition-same c s x (y ∷ ys) (sym ((eqb_ℤ_iff (key c s) (key c x)).0 f))
        | inr f ↦ find_transition-between c s x y ys (ltb_ℤ_connex (key c s) (key c x) h f) e
      ])
      | inr e ↦ rw e (
          find_transition-cons c s x _ (y ∷ ys) (ltb_ℤ_less_le (key c x) (key c y) (key c s) up e)
            (find_transition-in_force_at c s y ys ups e))
    ]

in_force_at-in_force :
    (c : Bool) (t : ℤ) (x : Transition) (xs : List Transition)
    → (in_force_at c t x xs).localtime_idx ≡ in_force c t x.localtime_idx xs
unfolding in_force in_force_at
in_force_at-in_force c t x [] = refl
in_force_at-in_force c t x (y ∷ ys) = elim (Bool-cases (ltb_ℤ t (key c y))) [
  | inl e ↦ rw e refl
  | inr e ↦ rw e (in_force_at-in_force c t y ys)
]

find_localtime_lem :
    (d : Data) (c : Bool) (s : Transition) (xs : List Transition)
    → IsAscending c xs
    → find_localtime (record d { transitions = xs }) s c
      ≡ at d.localtimes (in_force c (key c s) 0 xs)
unfolding find_localtime in_force
find_localtime_lem d c s [] up = refl
find_localtime_lem d c s (x ∷ xs) up = elim (Bool-cases (ltb_ℤ (key c s) (key c x))) [
  | inl e ↦ rw e refl
  | inr e ↦
      rw (e, find_transition-in_force_at c s x xs up e, in_force_at-in_force c (key c s) x xs) refl
]

-- On transitions whose times ascend, `findLocaltime` returns the local time of the last transition
-- that is not after the time looked for, and the first local time before all of them. That the
-- zone has no local time at that index is the only fault.
pub find_localtime-in_force :
    (d : Data) (c : Bool) (s : Transition)
    → IsAscending c d.transitions
    → find_localtime d s c ≡ at d.localtimes (in_force c (key c s) 0 d.transitions)
find_localtime-in_force d c s up = find_localtime_lem d c s d.transitions up
