-- ===== src/Codec/Frames.antt =====
-- The frames of examples/asio/chat/codec.h as byte sequences.
use cs_note.Common.{
  ℕ, ◌+◌, ◌≤◌, ◌<◌, ◌≡◌, refl, ap, ◌∙◌, sym, ◌⊎◌, inl, inr, List, [], ◌∷◌, ◌++◌, append_assoc,
  length, length-append, length-be_bytes, take, drop, take-append, drop-append, take-append-drop,
  take-front, drop-front, subst, Bool-cases, leb, leb→le, not_leb, be_bytes, from_be,
  from_be-be_bytes, arith,
}
use cs_note.Codec.{header_len, max_len}

-- A message after its length.
abbrev pub frame : List ℕ → List ℕ
frame m = be_bytes header_len (length m) ++ m

abbrev pub frames : List (List ℕ) → List ℕ
frames [] = []
frames (m ∷ ms) = frame m ++ frames ms

unfoldable pub AreShort : List (List ℕ) → Type 0
AreShort [] = Unit {0}
AreShort (m ∷ ms) = (length m ≤ max_len) × AreShort ms

-- The length that the first four bytes tell.
abbrev pub told : List ℕ → ℕ
told xs = from_be 0 (take header_len xs)

-- The bytes of a frame that is not whole yet.
abbrev pub IsPartial : List ℕ → Type 0
IsPartial xs = (length xs < header_len) ⊎ ((told xs ≤ max_len) × (length xs < told xs + header_len))

pub told-frame : (m rest : List ℕ) → length m ≤ max_len → told (frame m ++ rest) ≡ length m
told-frame m rest h =
    ap (from_be 0) (
      ap (take header_len) (append_assoc (be_bytes header_len (length m)) m rest)
      ∙ take-append header_len (be_bytes header_len (length m)) (m ++ rest)
          (sym (length-be_bytes header_len (length m))))
    ∙ from_be-be_bytes header_len (length m) (omega arith)

pub length-frame : (m : List ℕ) → length (frame m) ≡ header_len + length m
length-frame m =
    omega (
      arith,
      length-append (be_bytes header_len (length m)) m,
      length-be_bytes header_len (length m),
    )

told-append : (xs ys : List ℕ) → header_len ≤ length xs → told (xs ++ ys) ≡ told xs
told-append xs ys h = ap (from_be 0) (take-front header_len xs ys h)

IsPartial-intro :
    (xs : List ℕ)
    → (header_len ≤ length xs → (told xs ≤ max_len) × (length xs < told xs + header_len))
    → IsPartial xs
IsPartial-intro xs h = elim (Bool-cases (leb header_len (length xs))) [
  | inl e ↦ inr (h (leb→le header_len (length xs) e))
  | inr e ↦ inl (not_leb header_len (length xs) e)
]

-- The first bytes of what is not whole are not whole.
IsPartial-front : (xs ys : List ℕ) → IsPartial (xs ++ ys) → IsPartial xs
IsPartial-front xs ys (inl h) = inl (omega (arith, length-append xs ys))
IsPartial-front xs ys (inr (a, b)) = IsPartial-intro xs (λ h. (
  subst (λ n. n ≤ max_len) (told-append xs ys h) a,
  omega (arith, length-append xs ys, told-append xs ys h),
))

-- The first bytes of a frame, fewer than it has.
IsPartial-frame :
    (m rest xs ys : List ℕ)
    → length m ≤ max_len
    → xs ++ ys ≡ frame m ++ rest
    → length xs < header_len + length m
    → IsPartial xs
IsPartial-frame m rest xs ys short e lt = IsPartial-intro xs (λ h.
    let same : told xs ≡ length m =
      sym (told-append xs ys h) ∙ ap told e ∙ told-frame m rest short in
    (omega (arith, same), omega (arith, same)))

-- Where the bytes that have come so far divide whole frames.
pub record Division (ms : List (List ℕ)) (last xs ys : List ℕ) : Type 0 where
  pub came : List (List ℕ)
  pub to_come : List (List ℕ)
  pub part : List ℕ
  pub messages : ms ≡ came ++ to_come
  pub whole : xs ≡ frames came ++ part
  pub partial : IsPartial part
  pub rest : part ++ ys ≡ frames to_come ++ last

-- The first frame has come: what is left of both sides.
cut_frame :
    (f xs ys zs : List ℕ)
    → length f ≤ length xs
    → xs ++ ys ≡ f ++ zs
    → (xs ≡ f ++ drop (length f) xs) × (drop (length f) xs ++ ys ≡ zs)
cut_frame f xs ys zs h e =
    let front : take (length f) xs ≡ f =
      sym (take-front (length f) xs ys h)
      ∙ ap (take (length f)) e
      ∙ take-append (length f) f zs refl in
    (
      sym (take-append-drop (length f) xs) ∙ ap (λ x. x ++ drop (length f) xs) front,
      sym (drop-front (length f) xs ys h)
          ∙ ap (drop (length f)) e
          ∙ drop-append (length f) f zs refl,
    )

pub divide :
    (ms : List (List ℕ)) (last xs ys : List ℕ)
    → AreShort ms
    → IsPartial last
    → xs ++ ys ≡ frames ms ++ last
    → Division ms last xs ys
unfolding AreShort
divide [] last xs ys short partial e = record {
  came = [];
  to_come = [];
  part = xs;
  messages = refl;
  whole = refl;
  partial = IsPartial-front xs ys (subst IsPartial (sym e) partial);
  rest = e;
}
divide (m ∷ ms) last xs ys (short, shorts) partial e =
    elim (Bool-cases (leb (length (frame m)) (length xs))) [
      | inl h ↦
          let (a, b) =
            cut_frame (frame m) xs ys (frames ms ++ last) (leb→le _ _ h)
              (e ∙ append_assoc (frame m) (frames ms) last) in
          let d = divide ms last (drop (length (frame m)) xs) ys shorts partial b in
          record {
            came = m ∷ d.came;
            to_come = d.to_come;
            part = d.part;
            messages = ap (◌∷◌ m) d.messages;
            whole =
                a
                ∙ ap (◌++◌ (frame m)) d.whole
                ∙ sym (append_assoc (frame m) (frames d.came) d.part);
            partial = d.partial;
            rest = d.rest;
          }
      | inr h ↦ record {
        came = [];
        to_come = m ∷ ms;
        part = xs;
        messages = refl;
        whole = refl;
        partial =
            IsPartial-frame m (frames ms ++ last) xs ys short
              (e ∙ append_assoc (frame m) (frames ms) last)
              (omega (arith, not_leb _ _ h, length-frame m));
        rest = e;
      }
    ]
