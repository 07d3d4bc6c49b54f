-- ===== src/Buffer/Integers.antt =====
-- The integers of muduo/net/Buffer.h in network order. The source has one function for each of the
-- widths 8, 4, 2 and 1 in bytes; here the width is an argument.
use cs_note.Common.{
  ℕ, ◌+◌, ◌^◌, ◌≤◌, ◌<◌, ◌≡◌, sym, ap, ◌∙◌, List, [], ◌++◌, arith, length, take, drop, leb,
  append-nil, length-append, take-append, drop-append, take-take, Checked, ok, assert, ◌>>=◌, ◌>>◌,
  le→leb, max_size, be_bytes, from_be, length-be_bytes, from_be-be_bytes,
}
use cs_note.Buffer.{
  Buffer, cheap_prepend, contents, readable_bytes, prependable_bytes, retrieve, append, prepend,
}
use cs_note.Buffer.Contents.{IsValid, length-contents, retrieve-drop, prepend-append}
use cs_note.Buffer.Writing.{append-Result}

pub append_int : ℕ → ℕ → Buffer → Checked Buffer
append_int width x b = append (be_bytes width x) b

pub prepend_int : ℕ → ℕ → Buffer → Checked Buffer
prepend_int width x b = prepend (be_bytes width x) b

pub peek_int : ℕ → Buffer → Checked ℕ
peek_int width b = do
  assert (leb width (readable_bytes b))
  ok (from_be 0 (take width (drop b.reader b.bytes)))

pub retrieve_int : ℕ → Buffer → Checked Buffer
retrieve_int width b = retrieve width b

pub read_int : ℕ → Buffer → Checked (ℕ × Buffer)
read_int width b = do result ← peek_int width b; b' ← retrieve_int width b; ok (result, b')

-- What `read_int` returns on a buffer that begins with the bytes of `x`.
pub read_int-front :
    {b : Buffer} (width x : ℕ) (rest : List ℕ)
    → IsValid b
    → x < 256 ^ width
    → contents b ≡ be_bytes width x ++ rest
    → (b' : Buffer) × (read_int width b ≡ ok (x, b')) × IsValid b' × (contents b' ≡ rest)
unfolding read_int peek_int retrieve_int
read_int-front {b} width x rest v small front =
    let size = length-be_bytes width x in
    let le : width ≤ readable_bytes b =
      omega
        (arith, length-contents v, ap length front, length-append (be_bytes width x) rest, size) in
    let r = retrieve-drop width v le in
    let value : from_be 0 (take width (drop b.reader b.bytes)) ≡ x =
      ap (from_be 0) (
        take-take width (readable_bytes b) (drop b.reader b.bytes) le
        ∙ ap (take width) front
        ∙ take-append width (be_bytes width x) rest (sym size))
      ∙ from_be-be_bytes width x small in
    (
      r.buffer,
      rw (le→leb width (readable_bytes b) le, value, r.returned),
      r.valid,
      r.holds ∙ ap (drop width) front ∙ drop-append width (be_bytes width x) rest (sym size),
    )

-- An integer of some width, put in front of the content of a valid buffer that has room for it
-- there, is read back, and the content is as it was.
pub read_int-prepend_int :
    {b : Buffer} (width x : ℕ)
    → IsValid b
    → x < 256 ^ width
    → width ≤ prependable_bytes b
    → (b' b'' : Buffer) × (prepend_int width x b ≡ ok b')
      × (read_int width b' ≡ ok (x, b''))
      × IsValid b''
      × (contents b'' ≡ contents b)
unfolding prepend_int
read_int-prepend_int {b} width x v small room =
    let p = prepend-append (be_bytes width x) v (omega (arith, length-be_bytes width x)) in
    let (b'', read, valid, rest) = read_int-front width x (contents b) p.valid small p.holds in
    (p.buffer, b'', p.returned, read, valid, rest)

-- An integer of some width, appended to a valid, empty buffer, is read back, and the buffer is
-- empty again, as long as the size stays below what a vector holds.
pub read_int-append_int :
    {b : Buffer} (width x : ℕ)
    → IsValid b
    → x < 256 ^ width
    → b.writer + width + cheap_prepend ≤ max_size
    → contents b ≡ []
    → (b' b'' : Buffer) × (append_int width x b ≡ ok b')
      × (read_int width b' ≡ ok (x, b''))
      × IsValid b''
      × (contents b'' ≡ [])
unfolding append_int
read_int-append_int {b} width x v small room empty =
    let a = append-Result (be_bytes width x) v (omega (arith, length-be_bytes width x)) in
    let (b'', read, valid, rest) =
      read_int-front width x [] a.valid small
        (a.holds ∙ ap (λ c. c ++ be_bytes width x) empty ∙ sym (append-nil (be_bytes width x))) in
    (a.buffer, b'', a.returned, read, valid, rest)
