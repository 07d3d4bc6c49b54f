-- ===== src/Tcp/Connection/Stream.antt =====
-- `TcpConnection` of muduo/net/TcpConnection.cc as a byte stream: what the kernel has taken, followed
-- by the output buffer, is what was sent, in order.
use cs_note.Common.{
  ℕ, ◌+◌, ◌≤◌, ◌<◌, ◌≡◌, refl, sym, ap, ap₂, ◌∙◌, Bool, true, false, ◌&&◌, not, List, [], ◌++◌,
  append_assoc, append-nil, leb, ltb, ◌==◌, arith, length, take, drop, length-drop,
  take-append-drop, drop-all, length-append, Checked, ok, sub_size, max_size, size_mod, Bool-cases,
  inl, inr, le→leb, eq_nil_of_length,
}
use cs_note.Buffer.{Buffer, cheap_prepend, contents, readable_bytes}
use cs_note.Buffer.Contents.{IsValid, length-contents}
use cs_note.Buffer.Writing.{append-Result}
use cs_note.Tcp.Channel.{is_writing, enable_writing}
use cs_note.Tcp.Connection.{
  Connection, WriteResult, wrote, write_failed, is_fault, is_disconnected, Attempt, attempt,
  Functor, write_complete, queue_if, buffered, send_rest, send_in_loop,
}

-- The bytes that have been sent and not lost.
abbrev pub stream : Connection → List ℕ
stream c = c.wire ++ contents c.output

-- While the connection is not closed, its socket is watched for writes exactly if output waits.
pub record IsSound (c : Connection) : Type 0 where
  pub input_valid : IsValid c.input
  pub output_valid : IsValid c.output
  pub watching :
      is_disconnected c.state ≡ false → is_writing c.channel ≡ not (readable_bytes c.output == 0)

-- What `write(2)` may return for `len` bytes, short of EPIPE and ECONNRESET.
abbrev pub Takes : ℕ → WriteResult → Type 0
Takes len (wrote n) = n ≤ len
Takes len (write_failed e) = is_fault e ≡ false

-- The parts of a connection that sending leaves alone.
pub record Same (c c' : Connection) : Type 0 where
  pub state : c'.state ≡ c.state
  pub input : c'.input ≡ c.input
  pub write_shut : c'.write_shut ≡ c.write_shut

buffered-lem :
    (remaining : ℕ) (output : Buffer) (c : Connection)
    → ((buffered remaining output c).output ≡ output)
      × ((buffered remaining output c).wire ≡ c.wire)
      × (is_writing (buffered remaining output c).channel ≡ true)
      × Same c (buffered remaining output c)
unfolding buffered enable_writing
buffered-lem remaining output c = ground arith

-- What sending leaves: the message is at the end of the stream.
pub record Sent (message : List ℕ) (c : Connection) (r : Checked Connection) : Type 0 where
  pub conn : Connection
  pub returned : r ≡ ok conn
  pub sound : IsSound conn
  pub sent : stream conn ≡ stream c ++ message
  pub same : Same c conn

module _ (message : List ℕ) (n : ℕ) (c : Connection) (sound : IsSound c)
    (le : n ≤ length message) where
  send_rest-Sent :
      c.output.writer + length message + cheap_prepend ≤ max_size
      → is_disconnected c.state ≡ false
      → length message < size_mod
      → Sent
          (drop n message)
          c
          (send_rest message (record { nwrote = n; fault_error = false; conn = c }))
  unfolding send_rest
  send_rest-Sent fits alive small =
      let size = length-drop n message in
      let remaining : ℕ = sub_size (length message) n in
      let checked : leb remaining (length message) ≡ true = le→leb _ _ (omega arith) in
      elim (Bool-cases (ltb 0 remaining)) [
        | inl some_left ↦
            let r = append-Result (drop n message) sound.output_valid (omega (arith, size)) in
            let (o, w, writing, same) = buffered-lem remaining r.buffer c in
            let long : 0 < readable_bytes r.buffer = ground (
              arith,
              size,
              length-contents r.valid,
              ap length r.holds,
              length-append (contents c.output) (drop n message),
            ) in
            record {
              conn = buffered remaining r.buffer c;
              returned = rw (checked, some_left, r.returned);
              sound = record {
                input_valid = rw same.input sound.input_valid;
                output_valid = rw o r.valid;
                watching = λ _. writing ∙ rw o (ground (arith, long));
              };
              sent =
                  ap₂ (λ x y. x ++ contents y) w o
                  ∙ ap (◌++◌ c.wire) r.holds
                  ∙ sym (append_assoc c.wire (contents c.output) (drop n message));
              same = same;
            }
        | inr none_left ↦
            let all : drop n message ≡ [] = drop-all n message (ground (arith, size)) in
            record {
              conn = c;
              returned = rw (checked, none_left);
              sound = sound;
              sent = rw all (sym (append-nil (stream c)));
              same = record { state = refl; input = refl; write_shut = refl };
            }
      ]

pub queue_if-lem :
    (b : Bool) (f : Functor) (c : Connection)
    → ((queue_if b f c).output ≡ c.output)
      × ((queue_if b f c).wire ≡ c.wire)
      × ((queue_if b f c).channel ≡ c.channel)
      × Same c (queue_if b f c)
queue_if-lem true f c = (refl, refl, refl, record { state = refl; input = refl; write_shut = refl })
queue_if-lem false f c =
    (refl, refl, refl, record { state = refl; input = refl; write_shut = refl })

-- A sent prefix on the wire, and nothing in the output buffer.
record Tried (message : List ℕ) (c : Connection) (a : Attempt) : Type 0 where
  le : a.nwrote ≤ length message
  fault : a.fault_error ≡ false
  sound : IsSound a.conn
  output : a.conn.output ≡ c.output
  wire : a.conn.wire ≡ c.wire ++ take a.nwrote message
  same : Same c a.conn

attempt-Tried :
    (message : List ℕ) (w : WriteResult) (c : Connection)
    → Takes (length message) w
    → IsSound c
    → Tried message c (attempt message w c)
unfolding attempt
attempt-Tried message (wrote n) c t sound =
    let b : Bool = sub_size (length message) n == 0 && c.has_write_complete in
    let c1 : Connection = record c { wire = c.wire ++ take n message } in
    let (o, w, ch, same) = queue_if-lem b write_complete c1 in
    record {
      le = t;
      fault = refl;
      sound = record {
        input_valid = rw same.input sound.input_valid;
        output_valid = rw o sound.output_valid;
        watching = rw (o, ch, same.state) sound.watching;
      };
      output = o;
      wire = w;
      same = record { state = same.state; input = same.input; write_shut = same.write_shut };
    }
attempt-Tried message (write_failed e) c t sound = record {
  le = omega arith;
  fault = t;
  sound = sound;
  output = refl;
  wire = sym (append-nil c.wire);
  same = record { state = refl; input = refl; write_shut = refl };
}

trans_Same : {a b c : Connection} → Same a b → Same b c → Same a c
trans_Same s t = record {
  state = t.state ∙ s.state;
  input = t.input ∙ s.input;
  write_shut = t.write_shut ∙ s.write_shut;
}

-- On a sound connection that is not disconnected, `sendInLoop` returns and puts the whole message
-- at the end of the stream, some of it on the wire and the rest in the output buffer, and watches
-- the socket for writes exactly if output waits. This holds whatever part of it the first write
-- takes, unless the write reports a broken connection, as long as the size stays below what a
-- vector holds.
pub send_in_loop-Sent :
    (message : List ℕ) (w : WriteResult) (c : Connection)
    → IsSound c
    → is_disconnected c.state ≡ false
    → Takes (length message) w
    → c.output.writer + length message + cheap_prepend ≤ max_size
    → Sent message c (send_in_loop message w c)
unfolding send_in_loop
send_in_loop-Sent message w c sound alive t fits =
    elim (Bool-cases (not (is_writing c.channel) && readable_bytes c.output == 0)) [
      | inl idle ↦
          let a = attempt message w c in
          let tried = attempt-Tried message w c t sound in
          let empty : contents c.output ≡ [] =
            eq_nil_of_length (contents c.output)
              (ground (arith, length-contents sound.output_valid)) in
          let r =
            send_rest-Sent message a.nwrote a.conn tried.sound tried.le (rw tried.output fits)
              (rw tried.same.state alive) (omega arith) in
          record {
            conn = r.conn;
            returned =
                rw (alive, idle)
                  (ap
                      (λ b.
                        send_rest message
                          (record { nwrote = a.nwrote; fault_error = b; conn = a.conn }))
                      tried.fault
                    ∙ r.returned);
            sound = r.sound;
            sent =
                r.sent
                ∙ ap₂ (λ x y. (x ++ contents y) ++ drop a.nwrote message) tried.wire tried.output
                ∙ ap (λ x. ((c.wire ++ take a.nwrote message) ++ x) ++ drop a.nwrote message) empty
                ∙ ap (λ x. x ++ drop a.nwrote message)
                    (append-nil (c.wire ++ take a.nwrote message))
                ∙ append_assoc c.wire (take a.nwrote message) (drop a.nwrote message)
                ∙ ap (◌++◌ c.wire) (take-append-drop a.nwrote message)
                ∙ ap (λ x. x ++ message) (sym (rw empty (append-nil c.wire)));
            same = trans_Same tried.same r.same;
          }
      | inr busy ↦
          let r = send_rest-Sent message 0 c sound (omega arith) fits alive (omega arith) in
          record {
            conn = r.conn;
            returned = rw (alive, busy) r.returned;
            sound = r.sound;
            sent = r.sent;
            same = r.same;
          }
    ]
