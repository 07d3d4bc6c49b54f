-- ===== src/Buffer.antt =====
-- muduo/net/Buffer.h and Buffer.cc (under Linux多线程服务端编程/muduo/muduo/net): a byte buffer with a
-- reader and a writer index. A `const char*` into the storage is its offset. An `assert` that fails
-- and a `std::length_error` are faults. The integers of the protocol are their bit patterns.
pub mod Contents
pub mod Writing
pub mod Room
pub mod Filling
pub mod Integers
pub mod Search
use cs_note.Common.{
  ℕ, ◌+◌, ◌-◌, ◌*◌, ◌^◌, ◌%◌, Bool, Option, none, some, List, [], ◌∷◌, ◌++◌, ◌&&◌, if◌then◌else◌,
  ltb, leb, ◌==◌, length, take, drop, replicate, Checked, ok, fault, length_error, assert, ◌>>=◌,
  ◌>>◌, add_size, sub_size, max_size, be_bytes, from_be,
}
use mathlib.Core.Option

pub record Buffer : Type 0 where
  pub bytes : List ℕ
  pub reader : ℕ
  pub writer : ℕ

abbrev pub cheap_prepend : ℕ
cheap_prepend = 8

abbrev pub initial_size : ℕ
initial_size = 1024

-- readableBytes, writableBytes, prependableBytes: unsigned differences.
abbrev pub readable_bytes : Buffer → ℕ
readable_bytes b = sub_size b.writer b.reader

abbrev pub writable_bytes : Buffer → ℕ
writable_bytes b = sub_size (length b.bytes) b.writer

abbrev pub prependable_bytes : Buffer → ℕ
prependable_bytes b = b.reader

-- `vector::resize` and the sized constructor: new bytes are zero, and more than `max_size` throws.
pub resize : ℕ → List ℕ → Checked (List ℕ)
resize n bs =
    if ltb max_size n then fault length_error else ok (take n bs ++ replicate (n - length bs) 0)

-- `std::copy` of `src` over the bytes from offset `at` on.
abbrev pub splice : List ℕ → ℕ → List ℕ → List ℕ
splice bs at src = take at bs ++ (src ++ drop (at + length src) bs)

pub new : ℕ → Checked Buffer
new initial = do
  bytes ← resize (add_size cheap_prepend initial) []
  let b : Buffer = record { bytes = bytes; reader = cheap_prepend; writer = cheap_prepend }
  assert (readable_bytes b == 0)
  assert (writable_bytes b == initial)
  assert (prependable_bytes b == cheap_prepend)
  ok b

-- What lies between the two indices.
abbrev pub contents : Buffer → List ℕ
contents b = take (readable_bytes b) (drop b.reader b.bytes)

-- The bytes from `start` up to `beginWrite()`.
abbrev written_from : Buffer → ℕ → List ℕ
written_from b start = take (sub_size b.writer start) (drop start b.bytes)

-- `std::search` for "\r\n", as an offset into the range.
unfoldable pub search_crlf : List ℕ → Option ℕ
search_crlf [] = none
search_crlf (x ∷ []) = none
search_crlf (x ∷ y ∷ rest) =
    let later = Option.map (λ i. i + 1) (search_crlf (y ∷ rest)) in
    if x == 13 && y == 10 then some 0 else later

-- `memchr` for '\n'.
unfoldable pub search_eol : List ℕ → Option ℕ
search_eol [] = none
search_eol (x ∷ rest) =
    let later = Option.map (λ i. i + 1) (search_eol rest) in if x == 10 then some 0 else later

unfoldable pub find_crlf : Buffer → Option ℕ
unfolding search_crlf
find_crlf b = Option.map (λ i. b.reader + i) (search_crlf (written_from b b.reader))

unfoldable pub find_crlf_from : ℕ → Buffer → Checked (Option ℕ)
unfolding search_crlf
find_crlf_from start b = do
  assert (leb b.reader start)
  assert (leb start b.writer)
  ok (Option.map (λ i. start + i) (search_crlf (written_from b start)))

pub find_eol : Buffer → Option ℕ
unfolding search_eol
find_eol b = Option.map (λ i. b.reader + i) (search_eol (written_from b b.reader))

pub find_eol_from : ℕ → Buffer → Checked (Option ℕ)
unfolding search_eol
find_eol_from start b = do
  assert (leb b.reader start)
  assert (leb start b.writer)
  ok (Option.map (λ i. start + i) (search_eol (written_from b start)))

abbrev pub retrieve_all : Buffer → Buffer
retrieve_all b = record b { reader = cheap_prepend; writer = cheap_prepend }

unfoldable pub retrieve : ℕ → Buffer → Checked Buffer
retrieve len b = do
  assert (leb len (readable_bytes b))
  if ltb len (readable_bytes b)
      then ok (record b { reader = add_size b.reader len })
      else ok (retrieve_all b)

unfoldable pub retrieve_until : ℕ → Buffer → Checked Buffer
retrieve_until end b = do
  assert (leb b.reader end)
  assert (leb end b.writer)
  retrieve (sub_size end b.reader) b

unfoldable pub retrieve_as_string : ℕ → Buffer → Checked (List ℕ × Buffer)
retrieve_as_string len b = do
  assert (leb len (readable_bytes b))
  let result = take len (drop b.reader b.bytes)
  b' ← retrieve len b
  ok (result, b')

unfoldable pub retrieve_all_as_string : Buffer → Checked (List ℕ × Buffer)
retrieve_all_as_string b = retrieve_as_string (readable_bytes b) b

-- Grow the storage, or move the readable bytes to the front.
pub make_space : ℕ → Buffer → Checked Buffer
make_space len b =
    if ltb (add_size (writable_bytes b) (prependable_bytes b)) (add_size len cheap_prepend)
    then (do bytes ← resize (add_size b.writer len) b.bytes; ok (record b { bytes = bytes }))
    else (do
      assert (ltb cheap_prepend b.reader)
      let readable = readable_bytes b
      let b' : Buffer = record {
        bytes = splice b.bytes cheap_prepend (contents b);
        reader = cheap_prepend;
        writer = add_size cheap_prepend readable;
      }
      assert (readable == readable_bytes b')
      ok b')

pub ensure_writable_bytes : ℕ → Buffer → Checked Buffer
ensure_writable_bytes len b = do
  b' ← if ltb (writable_bytes b) len then make_space len b else ok b
  assert (leb len (writable_bytes b'))
  ok b'

pub has_written : ℕ → Buffer → Checked Buffer
has_written len b = do
  assert (leb len (writable_bytes b))
  ok (record b { writer = add_size b.writer len })

pub unwrite : ℕ → Buffer → Checked Buffer
unwrite len b = do
  assert (leb len (readable_bytes b))
  ok (record b { writer = sub_size b.writer len })

-- append(data, len): `src` is the memory that starts at `data`.
pub append_sized : List ℕ → ℕ → Buffer → Checked Buffer
append_sized src len b = do
  b' ← ensure_writable_bytes len b
  has_written len (record b' { bytes = splice b'.bytes b'.writer (take len src) })

unfoldable pub append : List ℕ → Buffer → Checked Buffer
append src b = append_sized src (length src) b

-- `static_cast<int>(n)` made a `size_t` again: the sign of the 32-bit pattern is extended.
abbrev pub int_size : ℕ → ℕ
int_size n = let w = n % 2 ^ 32 in if ltb w (2 ^ 31) then w else add_size (2 ^ 64 - 2 ^ 32) w

-- append(const StringPiece&): the length of a `StringPiece` is an `int`.
unfoldable pub append_string : List ℕ → Buffer → Checked Buffer
append_string src b = append_sized src (int_size (length src)) b

pub prepend : List ℕ → Buffer → Checked Buffer
prepend src b = do
  assert (leb (length src) (prependable_bytes b))
  let start = sub_size b.reader (length src)
  ok (record b { reader = start; bytes = splice b.bytes start src })

-- The content is appended as a `StringPiece`.
pub shrink : ℕ → Buffer → Checked Buffer
shrink reserve b = do
  other ← new initial_size
  other' ← ensure_writable_bytes (add_size (readable_bytes b) reserve) other
  append_sized (contents b) (int_size (readable_bytes b)) other'

-- The bytes that `readv` delivered, or its errno.
pub data ReadResult : Type 0 where
  received : List ℕ → ReadResult
  failed : ℕ → ReadResult

abbrev pub extra_size : ℕ
extra_size = 65536

-- What `readv` is offered: the writable bytes, and `extrabuf` if there are fewer than its size.
abbrev pub read_capacity : Buffer → ℕ
read_capacity b =
    if ltb (writable_bytes b) extra_size then writable_bytes b + extra_size else writable_bytes b

-- readFd after the system call, which fills the writable bytes first and `extrabuf` next. The
-- result is the call's, with `*savedErrno` as the errno of a failure.
unfoldable pub read_fd : ReadResult → Buffer → Checked (ReadResult × Buffer)
read_fd (failed errno) b = ok (failed errno, b)
read_fd (received got) b =
    let writable = writable_bytes b in
    let direct : Buffer = record b { bytes = splice b.bytes b.writer (take writable got) } in
    if leb (length got) writable
    then ok (received got, record direct { writer = add_size b.writer (length got) })
    else (do
      b' ← append (drop writable got) (record direct { writer = length direct.bytes })
      ok (received got, b'))
