-- ===== src/Buffer/Room.antt =====
-- The room that muduo/net/Buffer.h keeps in front of the content while it is written to.
use cs_note.Common.{
  ℕ, ◌≤◌, ◌≡◌, subst, Bool, true, false, ltb, leb, List, length, arith, Checked, ok, fault, assert,
  ◌>>=◌, ◌>>◌, if◌then◌else◌,
}
use cs_note.Buffer.{
  Buffer, writable_bytes, cheap_prepend, append, append_sized, ensure_writable_bytes, make_space,
  has_written, resize,
}

-- A result has at least `n` bytes in front of its content, if it is a buffer.
abbrev KeepsRoom : ℕ → Checked Buffer → Type 0
KeepsRoom n (ok b) = n ≤ b.reader
KeepsRoom n (fault e) = Unit {0}

make_space-KeepsRoom :
    (n len : ℕ) (b : Buffer) → n ≤ cheap_prepend → n ≤ b.reader → KeepsRoom n (make_space len b)
unfolding make_space resize
make_space-KeepsRoom n len b small h = ground arith

bind-KeepsRoom :
    (n : ℕ) (r : Checked Buffer) (f : Buffer → Checked Buffer)
    → ((b : Buffer) → n ≤ b.reader → KeepsRoom n (f b))
    → KeepsRoom n r
    → KeepsRoom n (r >>= f)
bind-KeepsRoom n (ok b) f h k = h b k
bind-KeepsRoom n (fault e) f h k = tt

assert-KeepsRoom :
    (n : ℕ) (t : Bool) (r : Checked Buffer) → KeepsRoom n r → KeepsRoom n (assert t >> r)
assert-KeepsRoom n true r h = h
assert-KeepsRoom n false r h = tt

ensure-KeepsRoom :
    (n len : ℕ) (b : Buffer)
    → n ≤ cheap_prepend
    → n ≤ b.reader
    → KeepsRoom n (ensure_writable_bytes len b)
unfolding ensure_writable_bytes
ensure-KeepsRoom n len b small h =
    bind-KeepsRoom n (if ltb (writable_bytes b) len then make_space len b else ok b)
      (λ b'. assert (leb len (writable_bytes b')) >> ok b')
      (λ b' k. assert-KeepsRoom n (leb len (writable_bytes b')) (ok b') k)
      (made (ltb (writable_bytes b) len))
  where
    made : (t : Bool) → KeepsRoom n (if t then make_space len b else ok b)
    made true = make_space-KeepsRoom n len b small h
    made false = h

append-KeepsRoom :
    (n : ℕ) (src : List ℕ) (b : Buffer)
    → n ≤ cheap_prepend
    → n ≤ b.reader
    → KeepsRoom n (append src b)
unfolding append append_sized has_written
append-KeepsRoom n src b small h =
    bind-KeepsRoom n (ensure_writable_bytes (length src) b) _
      (λ b' k. assert-KeepsRoom n (leb (length src) _) _ k)
      (ensure-KeepsRoom n (length src) b small h)

-- Appending leaves the bytes in front of the content free.
pub append-reader :
    (n : ℕ) (src : List ℕ) (b b' : Buffer)
    → append src b ≡ ok b'
    → n ≤ cheap_prepend
    → n ≤ b.reader
    → n ≤ b'.reader
append-reader n src b b' e small h = subst (KeepsRoom n) e (append-KeepsRoom n src b small h)
