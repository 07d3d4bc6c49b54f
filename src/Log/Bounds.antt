-- ===== src/Log/Bounds.antt =====
-- The stream of muduo/base/LogStream.h never writes past its buffer, and never part of an item.
use cs_note.Common.{
  ℕ, zero, suc, ◌/◌, ◌^◌, ◌≤◌, ◌<◌, ◌≡◌, refl, sym, ap, ◌∙◌, ◌⊎◌, inl, inr, true, false, none, some,
  List, [], ◌∷◌, ◌++◌, append_assoc, append-nil, arith, if◌then◌else◌, length, length-append, codes,
  ℤ, pos, negsuc, magnitude, length-decimal, length-reverse,
}
use native.Mathlib.Nat.{pow-suc}
use cs_note.Log.{
  FixedBuffer, append, put, put_all, format_integer, convert, convert_hex, convert_hex_loop, Item,
  boolean, integer, pointer, floating, character, c_string, str, formatted, max_numeric_size,
}
use cs_note.Log.Convert.{convert-decimal}

-- What an item puts into the stream.
abbrev pub text : Item → List ℕ
text (boolean v) = if v then codes "1" else codes "0"
text (integer v) = convert v
text (pointer p) = codes "0x" ++ convert_hex p
text (floating t) = t
text (character c) = c ∷ []
text (c_string none) = codes "(null)"
text (c_string (some s)) = s
text (str s) = s
text (formatted s) = s

-- Integers and pointers have 64 bits, and "%.12g" makes fewer than 32 characters.
abbrev pub InRange : Item → Type 0
InRange (integer v) = magnitude v < 2 ^ 64
InRange (pointer p) = p < 2 ^ 64
InRange (floating t) = length t < max_numeric_size
InRange _ = Unit {0}

length-convert : (v : ℤ) → magnitude v < 2 ^ 64 → length (convert v) < max_numeric_size
length-convert (pos n) h =
    omega (arith, ap length (convert-decimal n).0, length-decimal 19 n (omega arith))
length-convert (negsuc n) h =
    omega (arith, ap length (convert-decimal n).1, length-decimal 19 (suc n) (omega arith))

length-convert_hex_loop : (k fuel p : ℕ) → p < 16 ^ suc k → length (convert_hex_loop fuel p) ≤ suc k
unfolding convert_hex_loop
length-convert_hex_loop k zero p h = omega arith
length-convert_hex_loop zero (suc fuel) p h = ground (arith, pow-suc 16 0)
length-convert_hex_loop (suc k) (suc fuel) p h =
    ground (arith, pow-suc 16 (suc k), length-convert_hex_loop k fuel (p / 16))

length-convert_hex : (p : ℕ) → p < 2 ^ 64 → length (convert_hex p) ≤ 16
unfolding convert_hex
length-convert_hex p h = omega (
  arith,
  length-reverse (convert_hex_loop (suc p) p),
  length-convert_hex_loop 15 (suc p) p (omega arith),
)

-- An item is written whole or not at all, and one byte stays free for the '\0'.
pub put-lem :
    (i : Item) (b : FixedBuffer)
    → InRange i
    → length b.written < b.size
    → ((put i b).size ≡ b.size)
      × (length (put i b).written < b.size)
      × (((put i b).written ≡ b.written) ⊎ ((put i b).written ≡ b.written ++ text i))
unfolding put append format_integer
put-lem (boolean true) b r h = ground (arith, length-append b.written (codes "1"))
put-lem (boolean false) b r h = ground (arith, length-append b.written (codes "0"))
put-lem (integer v) b r h = ground (arith, length-append b.written (convert v), length-convert v r)
put-lem (pointer p) b r h =
    ground (arith, length-append b.written (codes "0x" ++ convert_hex p), length-convert_hex p r)
put-lem (floating t) b r h = ground (arith, length-append b.written t)
put-lem (character c) b r h = ground (arith, length-append b.written (c ∷ []))
put-lem (c_string none) b r h = ground (arith, length-append b.written (codes "(null)"))
put-lem (c_string (some s)) b r h = ground (arith, length-append b.written s)
put-lem (str s) b r h = ground (arith, length-append b.written s)
put-lem (formatted s) b r h = ground (arith, length-append b.written s)

-- Some of the items, in order.
pub data Subsequence : List Item → List Item → Type 0 where
  done : Subsequence [] []
  keep :
      {kept items : List Item} (i : Item)
      → Subsequence kept items
      → Subsequence (i ∷ kept) (i ∷ items)
  skip : {kept items : List Item} (i : Item) → Subsequence kept items → Subsequence kept (i ∷ items)

abbrev pub texts : List Item → List ℕ
texts [] = []
texts (i ∷ is) = text i ++ texts is

abbrev pub AllInRange : List Item → Type 0
AllInRange [] = Unit {0}
AllInRange (i ∷ is) = InRange i × AllInRange is

-- What the stream holds after any sequence of insertions of 64-bit items into a buffer that is
-- not full: the buffer is not full, and its bytes are the old ones and the whole texts of some of
-- the items, in the order of insertion.
pub put_all-Subsequence :
    (items : List Item) (b : FixedBuffer)
    → AllInRange items
    → length b.written < b.size
    → ((put_all items b).size ≡ b.size)
      × (length (put_all items b).written < b.size)
      × ((kept : List Item) × Subsequence kept items
          × ((put_all items b).written ≡ b.written ++ texts kept))
unfolding put_all
put_all-Subsequence [] b rs h = (refl, h, ([], done, sym (append-nil b.written)))
put_all-Subsequence (i ∷ items) b (r, rs) h =
    let (size, room, one) = put-lem i b r h in
    let (size', room', (kept, sub, written)) =
      put_all-Subsequence items (put i b) rs (omega (arith, size, room)) in
    (
      size' ∙ size,
      omega (arith, size, room'),
      elim one [
        | inl same ↦ (kept, skip i sub, written ∙ ap (λ w. w ++ texts kept) same)
        | inr more ↦ (
          i ∷ kept,
          keep i sub,
          written ∙ ap (λ w. w ++ texts kept) more ∙ append_assoc b.written (text i) (texts kept),
        )
      ],
    )
