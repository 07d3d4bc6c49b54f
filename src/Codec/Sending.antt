-- ===== src/Codec/Sending.antt =====
-- `send` of examples/asio/chat/codec.h, and its frames read back by `onMessage`.
use cs_note.Common.{
  ℕ, ◌+◌, ◌%◌, ◌^◌, ◌≤◌, ◌<◌, ◌≡◌, refl, ap, ◌∙◌, sym, subst, List, ◌++◌, length, length-be_bytes,
  be_bytes, Checked, ok, max_size, arith,
}
use cs_note.Buffer.{
  Buffer, contents, cheap_prepend, initial_size, append, prepend, prependable_bytes, retrieve_all,
}
use cs_note.Buffer.Contents.{prepend-append}
use cs_note.Buffer.Filling.{fresh, fresh-IsValid, new-ok}
use cs_note.Buffer.Writing.{append-Result}
use cs_note.Buffer.Room.{append-reader}
use cs_note.Tcp.Connection.{Connection, WriteResult, send_buffer, connected}
use cs_note.Tcp.Connection.Stream.{stream, IsSound, Takes, send_in_loop-Sent}
use cs_note.Http.Server.Exchange.{send_buffer_lem}
use cs_note.Codec.{header_len, send}
use cs_note.Codec.Frames.{frame, length-frame}

-- What a connection sends of a message.
pub record Framed (message : List ℕ) (c : Connection) (r : Checked Connection) : Type 0 where
  pub conn : Connection
  pub returned : r ≡ ok conn
  pub sound : IsSound conn
  pub sent : stream conn ≡ stream c ++ frame message

send_lem :
    (message : List ℕ) (w : WriteResult) (c : Connection) (b1 b2 : Buffer) (c' : Connection)
    → length message % 2 ^ 32 ≡ length message
    → append message (fresh initial_size) ≡ ok b1
    → prepend (be_bytes header_len (length message)) b1 ≡ ok b2
    → send_buffer b2 w c ≡ ok (c', retrieve_all b2)
    → send message w c ≡ ok c'
unfolding send
send_lem message w c b1 b2 c' small appended prepended sent =
    rw (new-ok initial_size (omega arith), small, appended, prepended, sent) refl

-- On a sound, connected connection `send` puts the message after its length at the end of what was
-- sent, if it is shorter than 2^31 bytes and the output buffer has the room, whatever part of it
-- the write takes.
pub send-frame :
    (message : List ℕ) (w : WriteResult) (c : Connection)
    → IsSound c
    → c.state ≡ connected
    → length message < 2 ^ 31
    → Takes (header_len + length message) w
    → c.output.writer + (header_len + length message) + cheap_prepend ≤ max_size
    → Framed message c (send message w c)
send-frame message w c sound up short takes fits =
    let small : length message % 2 ^ 32 ≡ length message = omega arith in
    let head : List ℕ = be_bytes header_len (length message) in
    let a = append-Result message (fresh-IsValid initial_size (omega arith)) (omega arith) in
    let room : header_len ≤ prependable_bytes a.buffer =
      append-reader header_len message (fresh initial_size) a.buffer a.returned (omega arith)
        (omega arith) in
    let p =
      prepend-append head a.valid
        (omega (arith, room, length-be_bytes header_len (length message))) in
    let framed : contents p.buffer ≡ frame message = p.holds ∙ ap (◌++◌ head) a.holds in
    let size : length (contents p.buffer) ≡ header_len + length message =
      ap length framed ∙ length-frame message in
    let s =
      send_in_loop-Sent (contents p.buffer) w c sound (rw up refl)
        (subst (λ n. Takes n w) (sym size) takes) (omega (arith, size)) in
    record {
      conn = s.conn;
      returned =
          send_lem message w c a.buffer p.buffer s.conn small a.returned p.returned
            (send_buffer_lem p.buffer w c s.conn (rw up refl) s.returned);
      sound = s.sound;
      sent = s.sent ∙ ap (◌++◌ (stream c)) framed;
    }
