-- ===== src/Hub/Sets.antt =====
-- `std::set` as the list of its elements, for the key types of examples/hub/hub.cc.
use cs_note.Common.{
  ◌≡◌, ◌↔◌, refl, sym, ap, ◌∙◌, Bool, true, false, ◌||◌, ◌&&◌, not, List, [], ◌∷◌, ◌++◌,
  if◌then◌else◌, Bool-cases, inl, inr, arith,
}

unfoldable pub has {ℓ} : {A : Type ℓ} → (A → A → Bool) → A → List A → Bool
has eq x [] = false
has eq x (y ∷ ys) = eq x y || has eq x ys

unfoldable pub insert {ℓ} : {A : Type ℓ} → (A → A → Bool) → A → List A → List A
unfolding has
insert eq x xs = if has eq x xs then xs else xs ++ x ∷ []

unfoldable pub erase {ℓ} : {A : Type ℓ} → (A → A → Bool) → A → List A → List A
erase eq x [] = []
erase eq x (y ∷ ys) = let rest = erase eq x ys in if eq y x then rest else y ∷ rest

module _ {A : Type 0} (eq : A → A → Bool) (eq_iff : (a b : A) → (eq a b ≡ true) ↔ (a ≡ b)) where
  has-append : (x y : A) (ys : List A) → has eq x (ys ++ y ∷ []) ≡ (eq x y || has eq x ys)
  unfolding has
  has-append x y [] = refl
  has-append x y (z ∷ zs) = ground (arith, has-append x y zs)

  pub has-insert : (x y : A) (ys : List A) → has eq x (insert eq y ys) ≡ (eq x y || has eq x ys)
  unfolding insert
  has-insert x y ys = elim (Bool-cases (has eq y ys)) [
    | inl e ↦ elim (Bool-cases (eq x y)) [
      | inl f ↦ rw (e, f) (ap (λ z. has eq z ys) ((eq_iff x y).0 f) ∙ e)
      | inr f ↦ rw (e, f) refl
    ]
    | inr e ↦ rw e (has-append x y ys)
  ]

  apart : (x y z : A) → eq z y ≡ false → (eq x y && eq x z) ≡ false
  apart x y z e = elim (Bool-cases (eq x y)) [
    | inr f ↦ rw f refl
    | inl f ↦ rw (f, (eq_iff x y).0 f) (other y z e)
  ]
    where
      clash : true ≡ false → ⊥
      clash h = ground arith

      other : (y z : A) → eq z y ≡ false → eq y z ≡ false
      other y z e = elim (Bool-cases (eq y z)) [
        | inr g ↦ g
        | inl g ↦ absurd (clash (sym ((eq_iff z y).1 (sym ((eq_iff y z).0 g))) ∙ e))
      ]

  erased : (a b c : Bool) {d : Bool} → b ≡ a → d ≡ (not a && c) → d ≡ (not a && (b || c))
  erased a b c e f = ground (arith, e, f)

  kept :
      (a b c : Bool) {d : Bool}
      → (a && b) ≡ false
      → d ≡ (not a && c)
      → (b || d) ≡ (not a && (b || c))
  kept a b c e f = ground (arith, e, f)

  pub has-erase : (x y : A) (ys : List A) → has eq x (erase eq y ys) ≡ (not (eq x y) && has eq x ys)
  unfolding has erase
  has-erase x y [] = ground arith
  has-erase x y (z ∷ zs) = elim (Bool-cases (eq z y)) [
    | inl e ↦
        rw e
          (erased (eq x y) (eq x z) (has eq x zs) (ap (eq x) ((eq_iff z y).0 e)) (has-erase x y zs))
    | inr e ↦ rw e (kept (eq x y) (eq x z) (has eq x zs) (apart x y z e) (has-erase x y zs))
  ]
