-- ===== src/Tcp/Connection/Writing.antt =====
-- The flushing of the output buffer by `handleWrite` of muduo/net/TcpConnection.cc.
use cs_note.Common.{
  ℕ, ◌≤◌, ◌≡◌, refl, ap, ap₂, ◌∙◌, true, false, not, ◌&&◌, ◌||◌, ◌++◌, append_assoc, ltb, ◌==◌,
  if◌then◌else◌, arith, take, drop, take-append-drop, Checked, ok, Bool-cases, inl, inr,
}
use cs_note.Buffer.{contents, readable_bytes}
use cs_note.Buffer.Contents.{retrieve-drop}
use cs_note.Tcp.Channel.{is_writing, disable_writing}
use cs_note.Tcp.Connection.{
  Connection, WriteResult, wrote, write_failed, is_disconnected, is_disconnecting, shutdown_in_loop,
  wrote_output, handle_written, handle_write,
}
use cs_note.Tcp.Connection.Stream.{IsSound, stream}

-- `wrote_output` leaves the stream alone, and stops watching for writes when the output is empty.
-- It shuts the writing side down only then, and only in the state kDisconnecting.
pub record Flushed (c c' : Connection) : Type 0 where
  pub output : c'.output ≡ c.output
  pub wire : c'.wire ≡ c.wire
  pub state : c'.state ≡ c.state
  pub input : c'.input ≡ c.input
  pub watching : is_writing c'.channel ≡ not (readable_bytes c.output == 0)
  pub shut :
      c'.write_shut ≡ (c.write_shut || (readable_bytes c.output == 0 && is_disconnecting c.state))

wrote_output-Flushed : (c : Connection) → is_writing c.channel ≡ true → Flushed c (wrote_output c)
unfolding wrote_output shutdown_in_loop disable_writing
wrote_output-Flushed c watching = ground arith

-- What `write(2)` may return for the output buffer; an error leaves the buffer for the next try.
abbrev pub TakesOutput : ℕ → WriteResult → Type 0
TakesOutput len (wrote n) = n ≤ len
TakesOutput len (write_failed e) = Unit {0}

abbrev pub taken : WriteResult → ℕ
taken (wrote n) = n
taken (write_failed e) = 0

-- What `handleWrite` leaves.
pub record Wrote (c : Connection) (n : ℕ) (r : Checked Connection) : Type 0 where
  pub conn : Connection
  pub returned : r ≡ ok conn
  pub sound : IsSound conn
  pub kept : stream conn ≡ stream c
  pub left : contents conn.output ≡ drop n (contents c.output)
  pub state : conn.state ≡ c.state
  pub shut :
      conn.write_shut
      ≡ (c.write_shut || (readable_bytes conn.output == 0 && is_disconnecting c.state))

unchanged :
    (c : Connection)
    → IsSound c
    → is_writing c.channel ≡ true
    → is_disconnected c.state ≡ false
    → Wrote c 0 (ok c)
unchanged c sound watching alive = record {
  conn = c;
  returned = refl;
  sound = sound;
  kept = refl;
  left = refl;
  state = refl;
  shut = ground (arith, sound.watching alive);
}

handle_written-Wrote :
    (w : WriteResult) (c : Connection)
    → IsSound c
    → is_writing c.channel ≡ true
    → is_disconnected c.state ≡ false
    → TakesOutput (readable_bytes c.output) w
    → Wrote c (taken w) (handle_written w c)
unfolding handle_written
handle_written-Wrote (wrote n) c sound watching alive t = elim (Bool-cases (ltb 0 n)) [
  | inl some_taken ↦
      let r = retrieve-drop n sound.output_valid t in
      let c1 : Connection = record c {
        output = r.buffer;
        wire = c.wire ++ take n (contents c.output);
      } in
      let f = wrote_output-Flushed c1 watching in
      record {
        conn = wrote_output c1;
        returned = rw (some_taken, r.returned);
        sound = record {
          input_valid = rw f.input sound.input_valid;
          output_valid = rw f.output r.valid;
          watching = λ _. f.watching ∙ rw f.output refl;
        };
        kept =
            ap₂ (λ x y. x ++ contents y) f.wire f.output
            ∙ ap (λ x. (c.wire ++ take n (contents c.output)) ++ x) r.holds
            ∙ append_assoc c.wire (take n (contents c.output)) (drop n (contents c.output))
            ∙ ap (◌++◌ c.wire) (take-append-drop n (contents c.output));
        left = rw f.output r.holds;
        state = f.state;
        shut = f.shut ∙ rw f.output refl;
      }
  | inr none_taken ↦
      let zero_taken : n ≡ 0 = ground arith in rw zero_taken (unchanged c sound watching alive)
]
handle_written-Wrote (write_failed e) c sound watching alive t = unchanged c sound watching alive

-- On a sound connection with output waiting, `handleWrite` moves bytes from the output buffer to the
-- wire, as many as the write takes: the stream and the state are the same, no assertion fails, the
-- socket is watched for writes exactly if output still waits, and the writing side is shut down
-- exactly if it was or if no output is left in the state kDisconnecting.
pub handle_write-Wrote :
    (w : WriteResult) (c : Connection)
    → IsSound c
    → is_writing c.channel ≡ true
    → is_disconnected c.state ≡ false
    → TakesOutput (readable_bytes c.output) w
    → Wrote c (taken w) (handle_write w c)
unfolding handle_write
handle_write-Wrote w c sound watching alive t =
    let r = handle_written-Wrote w c sound watching alive t in
    record {
      conn = r.conn;
      returned = ap (λ b. if b then handle_written w c else ok c) watching ∙ r.returned;
      sound = r.sound;
      kept = r.kept;
      left = r.left;
      state = r.state;
      shut = r.shut;
    }
