-- ===== src/Codec.antt =====
-- examples/asio/chat/codec.h (under Linux多线程服务端编程/muduo): messages with a length of four bytes
-- in front. The loop of `onMessage` is recursion on fuel. The user's callback is a function on the
-- connection; the buffer is only the codec's.
pub mod Frames
pub mod Decoding
pub mod Chunks
pub mod Sending
use cs_note.Common.{
  ℕ, zero, suc, ◌+◌, ◌%◌, ◌^◌, Bool, true, false, List, [], ◌∷◌, ◌||◌, if◌then◌else◌, ltb, leb,
  take, drop, length, add_size, ℤ, pos, negsuc, is_negative, magnitude, int32_of, from_be, be_bytes,
  Checked, ok, fault, out_of_fuel, ◌>>=◌,
}
use cs_note.Buffer.{Buffer, initial_size, readable_bytes, retrieve, new, append, prepend}
use cs_note.Tcp.Connection.{Connection, WriteResult, send_buffer, shutdown}

abbrev pub header_len : ℕ
header_len = 4

abbrev pub max_len : ℕ
max_len = 65536

-- `len > 65536 || len < 0`
abbrev pub is_invalid : ℤ → Bool
is_invalid (pos n) = ltb max_len n
is_invalid (negsuc n) = true

-- The four bytes at `peek()`.
abbrev pub peek_len : Buffer → ℤ
peek_len buf = int32_of (from_be 0 (take header_len (drop buf.reader buf.bytes)))

-- How a round of the loop ends: with a `break` or the loop's condition, or going on.
pub data Round : Type 0 where
  stop : Buffer → Connection → Round
  go_on : Buffer → Connection → Round

abbrev pub after_round :
    (Buffer → Connection → Checked (Buffer × Connection)) → Round → Checked (Buffer × Connection)
after_round loop (stop buf conn) = ok (buf, conn)
after_round loop (go_on buf conn) = loop buf conn

module _ (message_callback : List ℕ → Connection → Connection) where
  -- The branch that has a whole message of `len` bytes.
  unfoldable pub take_message : ℕ → Buffer → Connection → Checked Round
  take_message len buf conn = do
    body ← retrieve header_len buf
    let message = take len (drop body.reader body.bytes)
    let conn' = message_callback message conn
    rest ← retrieve len body
    ok (go_on rest conn')

  unfoldable pub round : Buffer → Connection → Checked Round
  round buf conn =
      if leb header_len (readable_bytes buf)
      then (let len = peek_len buf in
          if is_invalid len
          then ok (stop buf (shutdown conn))
          else if leb (add_size (magnitude len) header_len) (readable_bytes buf)
          then take_message (magnitude len) buf conn
          else ok (stop buf conn))
      else ok (stop buf conn)

  unfoldable pub on_message : ℕ → Buffer → Connection → Checked (Buffer × Connection)
  on_message zero buf conn = fault out_of_fuel
  on_message (suc fuel) buf conn = round buf conn >>= after_round (on_message fuel)

-- `send`: the length of the message as an `int32_t`.
unfoldable pub send : List ℕ → WriteResult → Connection → Checked Connection
send message w conn = do
  buf ← new initial_size
  buf1 ← append message buf
  buf2 ← prepend (be_bytes header_len (length message % 2 ^ 32)) buf1
  (conn', emptied) ← send_buffer buf2 w conn
  ok conn'

-- Bytes that arrive in chunks: each is added to the buffer and `onMessage` called, with as much
-- fuel as there are bytes.
unfoldable pub receive_all :
    (List ℕ → Connection → Connection)
    → List (List ℕ)
    → Buffer
    → Connection
    → Checked (Buffer × Connection)
receive_all message_callback [] buf conn = ok (buf, conn)
receive_all message_callback (chunk ∷ chunks) buf conn = do
  filled ← append chunk buf
  (buf', conn') ← on_message message_callback (suc (readable_bytes filled)) filled conn
  receive_all message_callback chunks buf' conn'
