-- ===== src/Buffer/Search.antt =====
-- What `findCRLF` of muduo/net/Buffer.h finds.
use cs_note.Common.{
  ℕ, ◌+◌, ◌≡◌, refl, ap, List, [], ◌∷◌, ◌++◌, arith, length, none, some, Bool-cases, Option-cases,
  inl, inr, ◌==◌, ◌&&◌, false,
}
use cs_note.Buffer.{search_crlf}

-- A line holds no "\r\n", nor would it with a '\r' behind it.
abbrev pub IsLine : List ℕ → Type 0
IsLine line = search_crlf (line ++ 13 ∷ []) ≡ none

-- A line in front of "\r\n" is found whole: the first "\r\n" counts.
pub search_crlf-append :
    (line rest : List ℕ) → IsLine line → search_crlf (line ++ 13 ∷ 10 ∷ rest) ≡ some (length line)
unfolding search_crlf
search_crlf-append [] rest h = refl
search_crlf-append (x ∷ []) rest h = ground arith
search_crlf-append (x ∷ y ∷ line) rest h = ground (arith, search_crlf-append (y ∷ line) rest)

-- What a search finds: the bytes split into a line, its "\r\n" at the returned offset, and the rest.
pub record Found (xs : List ℕ) (i : ℕ) : Type 0 where
  pub line : List ℕ
  pub rest : List ℕ
  pub split : xs ≡ line ++ 13 ∷ 10 ∷ rest
  pub offset : length line ≡ i
  pub first : IsLine line

IsLine-cons :
    (x y : ℕ) (rest line after : List ℕ)
    → (x == 13 && y == 10) ≡ false
    → y ∷ rest ≡ line ++ 13 ∷ 10 ∷ after
    → IsLine line
    → IsLine (x ∷ line)
unfolding search_crlf
IsLine-cons x y rest [] after miss split first = ground arith
IsLine-cons x y rest (z ∷ line) after miss split first = ground arith

Found-cons :
    (x y : ℕ) (rest : List ℕ) {i : ℕ}
    → (x == 13 && y == 10) ≡ false
    → Found (y ∷ rest) i
    → Found (x ∷ y ∷ rest) (i + 1)
Found-cons x y rest miss f = record {
  line = x ∷ f.line;
  rest = f.rest;
  split = ap (◌∷◌ x) f.split;
  offset = omega (arith, f.offset);
  first = IsLine-cons x y rest f.line f.rest miss f.split f.first;
}

pub search_crlf-Found : (xs : List ℕ) (i : ℕ) → search_crlf xs ≡ some i → Found xs i
unfolding search_crlf
search_crlf-Found [] i e = cc
search_crlf-Found (x ∷ []) i e = cc
search_crlf-Found (x ∷ y ∷ rest) i e = elim (Bool-cases (x == 13 && y == 10)) [
  | inl hit ↦ record {
    line = [];
    rest = rest;
    split = ground arith;
    offset = ground arith;
    first = refl;
  }
  | inr miss ↦ elim (Option-cases (search_crlf (y ∷ rest))) [
    | inl nothing ↦ absurd (ground (arith, nothing))
    | inr (j, later) ↦
        let e' : i ≡ j + 1 = ground (arith, later) in
        rw e' (Found-cons x y rest miss (search_crlf-Found (y ∷ rest) j later))
  ]
]
