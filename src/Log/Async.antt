-- ===== src/Log/Async.antt =====
-- muduo/base/AsyncLogging.cc: log lines go into large buffers, which a thread writes out. A null pointer
-- to a buffer is `none`; what was written to the file is `output`.
pub mod Lines
pub mod Order
pub mod Turn
use cs_note.Common.{
  ℕ, suc, ◌+◌, Bool, true, false, ◌&&◌, not, Option, none, some, List, [], ◌∷◌, ◌++◌, if◌then◌else◌,
  ltb, ◌==◌, length, take, Checked, ok, fault, assertion, assert, ◌>>=◌, ◌>>◌,
}
use cs_note.Log.{FixedBuffer, avail, append, reset}

-- `detail::kLargeBuffer`
abbrev pub large_buffer : ℕ
large_buffer = 4_000_000

abbrev pub new_buffer : FixedBuffer
new_buffer = record { size = large_buffer; written = [] }

-- The last three fields record what was appended, whether anything was dropped, and the file.
pub record AsyncLogging : Type 0 where
  pub current_buffer : FixedBuffer
  pub next_buffer : Option FixedBuffer
  pub buffers : List FixedBuffer
  pub new_buffer1 : Option FixedBuffer
  pub new_buffer2 : Option FixedBuffer
  pub buffers_to_write : List FixedBuffer
  pub appended : List ℕ
  pub dropped : Bool
  pub output : List ℕ

-- When the thread starts.
abbrev pub new_logging : AsyncLogging
new_logging = record {
  current_buffer = new_buffer;
  next_buffer = some new_buffer;
  buffers = [];
  new_buffer1 = some new_buffer;
  new_buffer2 = some new_buffer;
  buffers_to_write = [];
  appended = [];
  dropped = false;
  output = [];
}

abbrev pub or_new : Option FixedBuffer → FixedBuffer
or_new none = new_buffer
or_new (some b) = b

unfoldable pub append_line : List ℕ → AsyncLogging → AsyncLogging
append_line line l =
    if ltb (length line) (avail l.current_buffer)
    then record l { current_buffer = append line l.current_buffer; appended = l.appended ++ line }
    else record l {
      buffers = l.buffers ++ l.current_buffer ∷ [];
      current_buffer = append line (or_new l.next_buffer);
      next_buffer = none;
      appended = l.appended ++ line;
    }

-- `buffer && buffer->length() == 0`
abbrev pub is_ready : Option FixedBuffer → Bool
is_ready none = false
is_ready (some b) = length b.written == 0

abbrev pub is_null : Option FixedBuffer → Bool
is_null none = true
is_null (some b) = false

abbrev pub is_empty : List FixedBuffer → Bool
is_empty [] = true
is_empty (b ∷ bs) = false

-- The loop of `threadFunc` up to the end of its section under the mutex.
unfoldable pub swap_buffers : AsyncLogging → Checked AsyncLogging
swap_buffers l = do
  assert (is_ready l.new_buffer1)
  assert (is_ready l.new_buffer2)
  assert (is_empty l.buffers_to_write)
  ok (record l {
    current_buffer = or_new l.new_buffer1;
    new_buffer1 = none;
    buffers_to_write = l.buffers ++ l.current_buffer ∷ [];
    buffers = [];
    next_buffer = if is_null l.next_buffer then l.new_buffer2 else l.next_buffer;
    new_buffer2 = if is_null l.next_buffer then none else l.new_buffer2;
  })

-- Too many buffers: a notice goes to the file, and all but two are dropped.
unfoldable pub drop_buffers : List ℕ → AsyncLogging → Checked AsyncLogging
drop_buffers notice l = do
  assert (not (is_empty l.buffers_to_write))
  ok (
      if ltb 25 (length l.buffers_to_write)
      then record l {
        output = l.output ++ notice;
        buffers_to_write = take 2 l.buffers_to_write;
        dropped = true;
      }
      else l)

unfoldable pub text : List FixedBuffer → List ℕ
text [] = []
text (b ∷ bs) = b.written ++ text bs

abbrev pub write_buffers : AsyncLogging → AsyncLogging
write_buffers l = record l { output = l.output ++ text l.buffers_to_write }

-- The last buffer, and the others.
abbrev pub take_back : List FixedBuffer → Checked (FixedBuffer × List FixedBuffer)
take_back [] = fault assertion
take_back (b ∷ []) = ok (b, [])
take_back (b ∷ c ∷ bs) = do (d, ds) ← take_back (c ∷ bs); ok (d, b ∷ ds)

-- A buffer that was written is used again.
abbrev pub refill :
    Option FixedBuffer → List FixedBuffer → Checked (Option FixedBuffer × List FixedBuffer)
refill (some b) bs = ok (some b, bs)
refill none bs = do (b, bs') ← take_back bs; ok (some (reset b), bs')

unfoldable pub reuse_buffers : AsyncLogging → Checked AsyncLogging
reuse_buffers l = do
  (b1, bs) ← refill l.new_buffer1 (take 2 l.buffers_to_write)
  (b2, _) ← refill l.new_buffer2 bs
  ok (record l { new_buffer1 = b1; new_buffer2 = b2; buffers_to_write = [] })

-- One turn of the loop in which nothing else happens.
abbrev pub turn : List ℕ → AsyncLogging → Checked AsyncLogging
turn notice l = do
  l1 ← swap_buffers l
  l2 ← drop_buffers notice l1
  reuse_buffers (write_buffers l2)
