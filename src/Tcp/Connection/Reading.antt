-- ===== src/Tcp/Connection/Reading.antt =====
-- `handleRead`, `shutdown` and `startRead` of muduo/net/TcpConnection.cc on a connection that is open,
-- and on one that is not.
use cs_note.Common.{
  ℕ, ◌+◌, ◌≤◌, ◌≡◌, refl, sym, ap, ◌∙◌, true, false, List, [], ◌∷◌, ◌++◌, append-nil, arith, length,
  drop-all, ok, max_size,
}
use cs_note.Buffer.{Buffer, cheap_prepend, received, contents, readable_bytes}
use cs_note.Buffer.Contents.{IsValid, length-contents}
use cs_note.Buffer.Filling.{read_fd-Result}
use cs_note.Tcp.Channel.{is_writing, is_reading, enable_reading, disable_all, remove}
use cs_note.Tcp.Connection.{
  Connection, connected, disconnected, disconnecting, is_open, message_callback, close_callback,
  connection_callback, handle_read, handle_close, shutdown, shutdown_in_loop, start_read_in_loop,
  connect_destroyed, wrote, handle_write,
}
use cs_note.Tcp.Connection.Stream.{IsSound, stream}
use cs_note.Tcp.Connection.Writing.{handle_write-Wrote}

-- Bytes that arrive are added to the valid input buffer, in which they fit, and the message
-- callback is called; nothing else of the connection changes.
pub handle_read-message :
    (x : ℕ) (xs : List ℕ) (c : Connection)
    → IsValid c.input
    → c.input.writer + length (x ∷ xs) + cheap_prepend ≤ max_size
    → (input : Buffer) × (handle_read (received (x ∷ xs)) c
        ≡ ok (record c { input = input; calls = c.calls ++ message_callback ∷ [] }))
      × IsValid input
      × (contents input ≡ contents c.input ++ x ∷ xs)
unfolding handle_read
handle_read-message x xs c v fits =
    let (input, returned, valid, holds) = read_fd-Result (x ∷ xs) v fits in
    (input, rw returned, valid, holds)

-- The end of the stream closes an open connection with a valid input buffer, whether it was
-- shutting down or not: the state is kDisconnected, no event is watched for, the content of both
-- buffers is kept, and the connection callback is called and then the close callback.
pub handle_read-end :
    (c : Connection)
    → is_open c.state ≡ true
    → IsValid c.input
    → c.input.writer + cheap_prepend ≤ max_size
    → (input : Buffer) × (handle_read (received []) c
        ≡ ok (record c {
          state = disconnected;
          channel = disable_all c.channel;
          input = input;
          calls = (c.calls ++ connection_callback false ∷ []) ++ close_callback ∷ [];
        }))
      × (contents input ≡ contents c.input)
unfolding handle_read handle_close
handle_read-end c alive v fits =
    let (input, returned, valid, holds) = read_fd-Result [] v (omega arith) in
    (input, rw returned (ground arith), holds ∙ append-nil (contents c.input))

-- On a sound, connected connection with output waiting, `shutdown` cuts nothing off: it only
-- marks the connection, and the write that takes all the output shuts the writing side down, with
-- the whole stream on the wire.
pub handle_write-shutdown :
    (c : Connection)
    → IsSound c
    → c.state ≡ connected
    → is_writing c.channel ≡ true
    → ((shutdown c).write_shut ≡ c.write_shut)
      × ((c' : Connection) × (handle_write (wrote (readable_bytes c.output)) (shutdown c) ≡ ok c')
          × (c'.wire ≡ stream c)
          × (contents c'.output ≡ [])
          × (c'.write_shut ≡ true))
unfolding shutdown shutdown_in_loop
handle_write-shutdown c sound up watching =
    let marked : Connection = record c { state = disconnecting } in
    let e : shutdown c ≡ marked = ground arith in
    let m : IsSound marked = record {
      input_valid = sound.input_valid;
      output_valid = sound.output_valid;
      watching = λ _. sound.watching (rw up refl);
    } in
    let n : ℕ = readable_bytes c.output in
    let r = handle_write-Wrote (wrote n) marked m watching refl (omega arith) in
    let empty : contents r.conn.output ≡ [] =
      r.left ∙ drop-all n (contents c.output) (omega (arith, length-contents sound.output_valid)) in
    (
      rw e refl,
      (
        r.conn,
        rw e r.returned,
        sym (append-nil r.conn.wire) ∙ ap (◌++◌ r.conn.wire) (sym empty) ∙ r.kept,
        empty,
        r.shut ∙ ground (arith, ap length empty, length-contents r.sound.output_valid),
      ),
    )

-- `startRead` does not look at the state. A connection that was closed and destroyed is put back
-- into the loop by it: its channel, no longer added, is added again and watched for reads.
pub start_read_in_loop_after_destroyed :
    (c c' : Connection)
    → c.state ≡ disconnected
    → connect_destroyed c ≡ ok c'
    → (c'.channel.added_to_loop ≡ false)
      × (let again = start_read_in_loop c' in
          (again.state ≡ disconnected)
          × (again.channel.added_to_loop ≡ true)
          × (is_reading again.channel ≡ true))
unfolding connect_destroyed start_read_in_loop remove enable_reading
start_read_in_loop_after_destroyed c c' down e = ground arith
