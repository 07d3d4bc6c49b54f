-- ===== src/Codec/Decoding.antt =====
-- `onMessage` of examples/asio/chat/codec.h on whole frames, and on what is left after them.
use cs_note.Common.{
  ℕ, zero, suc, ◌+◌, ◌≤◌, ◌<◌, ◌≡◌, refl, ap, ◌∙◌, sym, subst, inl, inr, true, false, List, [], ◌∷◌,
  ◌++◌, append_assoc, length, length-append, take, drop, take-take, drop-append, take-append,
  length-be_bytes, be_bytes, ltb, leb, le→leb, leb→le, Bool-cases, int32_of, from_be, pos, add_size,
  Checked, ok, arith,
}
use cs_note.Buffer.{Buffer, contents, readable_bytes, cheap_prepend, retrieve}
use cs_note.Buffer.Contents.{IsValid, retrieve-drop, length-contents}
use cs_note.Tcp.Connection.{Connection, shutdown}
use cs_note.Codec.{
  header_len, max_len, is_invalid, peek_len, Round, stop, go_on, take_message, round, on_message,
}
use cs_note.Codec.Frames.{frame, frames, AreShort, told, IsPartial, told-frame, length-frame}

-- The messages are given to the callback in order.
abbrev pub call_all : (List ℕ → Connection → Connection) → List (List ℕ) → Connection → Connection
call_all cb [] conn = conn
call_all cb (m ∷ ms) conn = call_all cb ms (cb m conn)

-- The first bytes at the reader index, of those that are readable.
front-contents :
    (b : Buffer) (n : ℕ)
    → n ≤ readable_bytes b
    → take n (drop b.reader b.bytes) ≡ take n (contents b)
front-contents b n h = take-take n (readable_bytes b) (drop b.reader b.bytes) h

peek_len-told :
    (b : Buffer) → header_len ≤ readable_bytes b → peek_len b ≡ int32_of (told (contents b))
peek_len-told b h = ap (λ x. int32_of (from_be 0 x)) (front-contents b header_len h)

int32_of-short : (n : ℕ) → n ≤ max_len → int32_of n ≡ pos n
int32_of-short n h = ground arith

int32_of-long : (n : ℕ) → max_len < n → is_invalid (int32_of n) ≡ true
int32_of-long n h = ground arith

retrieve-writer :
    (n w : ℕ) (b b' : Buffer)
    → retrieve n b ≡ ok b'
    → b.writer ≤ w
    → cheap_prepend ≤ w
    → b'.writer ≤ w
unfolding retrieve
retrieve-writer n w b b' e h k = ground arith

le→not_ltb : (n m : ℕ) → n ≤ m → ltb m n ≡ false
le→not_ltb n m h = ground arith

not_whole :
    (n size readable : ℕ)
    → size < n + header_len
    → size ≡ readable
    → n ≤ max_len
    → leb (add_size n header_len) readable ≡ false
not_whole n size readable h e short = ground arith

drop_header :
    {xs : List ℕ} (m rest : List ℕ) → xs ≡ frame m ++ rest → drop header_len xs ≡ m ++ rest
drop_header m rest e =
    ap (drop header_len) (e ∙ append_assoc (be_bytes header_len (length m)) m rest)
    ∙ drop-append header_len (be_bytes header_len (length m)) (m ++ rest)
        (sym (length-be_bytes header_len (length m)))

module _ (cb : List ℕ → Connection → Connection) where
  round-partial :
      {b : Buffer} (conn : Connection)
      → IsValid b
      → IsPartial (contents b)
      → round cb b conn ≡ ok (stop b conn)
  unfolding round
  round-partial {b} conn v (inl h) =
      let no : leb header_len (readable_bytes b) ≡ false = ground (arith, length-contents v) in
      rw no refl
  round-partial {b} conn v (inr (short, h)) =
      elim (Bool-cases (leb header_len (readable_bytes b))) [
        | inr e ↦ rw e refl
        | inl e ↦
            rw
              (
                e,
                peek_len-told b (leb→le _ _ e),
                int32_of-short _ short,
                le→not_ltb _ _ short,
                not_whole (told (contents b)) (length (contents b)) (readable_bytes b) h
                    (length-contents v) short,
              )
              refl
      ]

  round-invalid :
      {b : Buffer} (conn : Connection)
      → IsValid b
      → header_len ≤ length (contents b)
      → max_len < told (contents b)
      → round cb b conn ≡ ok (stop b (shutdown conn))
  unfolding round
  round-invalid {b} conn v h long =
      let e : leb header_len (readable_bytes b) ≡ true = ground (arith, length-contents v) in
      rw (e, peek_len-told b (leb→le _ _ e), int32_of-long _ long) refl

  -- What a round makes of a whole frame.
  record Taken (m rest : List ℕ) (w : ℕ) (conn : Connection) (r : Checked Round) : Type 0 where
    buffer : Buffer
    returned : r ≡ ok (go_on buffer (cb m conn))
    valid : IsValid buffer
    holds : contents buffer ≡ rest
    low : buffer.writer ≤ w

  take_message-Taken :
      {b : Buffer} (m rest : List ℕ) (w : ℕ) (conn : Connection)
      → IsValid b
      → contents b ≡ frame m ++ rest
      → b.writer ≤ w
      → cheap_prepend ≤ w
      → Taken m rest w conn (take_message cb (length m) b conn)
  unfolding take_message
  take_message-Taken {b} m rest w conn v e low wide =
      let size : length (contents b) ≡ header_len + length m + length rest =
        omega (arith, ap length e, length-append (frame m) rest, length-frame m) in
      let r1 = retrieve-drop header_len v (omega (arith, size, length-contents v)) in
      let body : contents r1.buffer ≡ m ++ rest = r1.holds ∙ drop_header m rest e in
      let whole : length m ≤ readable_bytes r1.buffer =
        omega (arith, length-contents r1.valid, ap length body, length-append m rest) in
      let r2 = retrieve-drop (length m) r1.valid whole in
      let message : take (length m) (drop r1.buffer.reader r1.buffer.bytes) ≡ m =
        front-contents r1.buffer (length m) whole
        ∙ ap (take (length m)) body
        ∙ take-append (length m) m rest refl in
      record {
        buffer = r2.buffer;
        returned = rw (r1.returned, message, r2.returned) refl;
        valid = r2.valid;
        holds = r2.holds ∙ ap (drop (length m)) body ∙ drop-append (length m) m rest refl;
        low =
            retrieve-writer (length m) w r1.buffer r2.buffer r2.returned
              (retrieve-writer header_len w b r1.buffer r1.returned low wide) wide;
      }

  round-frame :
      {b : Buffer} (m rest : List ℕ) (w : ℕ) (conn : Connection)
      → IsValid b
      → contents b ≡ frame m ++ rest
      → length m ≤ max_len
      → b.writer ≤ w
      → cheap_prepend ≤ w
      → Taken m rest w conn (round cb b conn)
  unfolding round
  round-frame {b} m rest w conn v e short low wide =
      let size : length (contents b) ≡ header_len + length m + length rest =
        omega (arith, ap length e, length-append (frame m) rest, length-frame m) in
      let h : leb header_len (readable_bytes b) ≡ true =
        le→leb _ _ (omega (arith, size, length-contents v)) in
      let len : told (contents b) ≡ length m = ap told e ∙ told-frame m rest short in
      let whole : leb (add_size (length m) header_len) (readable_bytes b) ≡ true =
        le→leb _ _ (omega (arith, size, length-contents v)) in
      rw
        (
          h,
          peek_len-told b (leb→le _ _ h),
          len,
          int32_of-short (length m) short,
          le→not_ltb _ _ short,
          whole,
        )
        (take_message-Taken m rest w conn v e low wide)

  -- What the loop makes of frames: the buffer, and how the calls end.
  pub record Decoded (last : List ℕ) (w : ℕ) (conn : Connection) (r : Checked (Buffer × Connection))
      : Type 0 where
    pub buffer : Buffer
    pub returned : r ≡ ok (buffer, conn)
    pub valid : IsValid buffer
    pub holds : contents buffer ≡ last
    pub low : buffer.writer ≤ w

  -- The frames first, then one round that stops.
  on_message-stops :
      (ms : List (List ℕ)) (last : List ℕ) (fuel w : ℕ) {b : Buffer} (conn : Connection)
      (end : Connection → Connection)
      → ((b' : Buffer) (conn' : Connection)
          → IsValid b'
          → contents b' ≡ last
          → round cb b' conn' ≡ ok (stop b' (end conn')))
      → AreShort ms
      → IsValid b
      → contents b ≡ frames ms ++ last
      → length (contents b) < fuel
      → b.writer ≤ w
      → cheap_prepend ≤ w
      → Decoded last w (end (call_all cb ms conn)) (on_message cb fuel b conn)
  unfolding on_message AreShort
  on_message-stops ms last zero w conn end stops short v e h low wide = absurd (omega arith)
  on_message-stops [] last (suc fuel) w {b} conn end stops short v e h low wide = record {
    buffer = b;
    returned = rw (stops b conn v e) refl;
    valid = v;
    holds = e;
    low = low;
  }
  on_message-stops (m ∷ ms) last (suc fuel) w {b} conn end stops (short, shorts) v e h low wide =
      let e' : contents b ≡ frame m ++ (frames ms ++ last) =
        e ∙ append_assoc (frame m) (frames ms) last in
      let t = round-frame m (frames ms ++ last) w conn v e' short low wide in
      let size : length (contents t.buffer) < fuel = omega (
        arith,
        ap length e',
        ap length t.holds,
        length-append (frame m) (frames ms ++ last),
        length-frame m,
      ) in
      let d =
        on_message-stops ms last fuel w (cb m conn) end stops shorts t.valid t.holds size t.low
          wide in
      record {
        buffer = d.buffer;
        returned = rw t.returned d.returned;
        valid = d.valid;
        holds = d.holds;
        low = d.low;
      }

  -- `onMessage` on a valid buffer with short messages, each after its length, and the bytes of one
  -- that is not whole: the loop ends, the callback gets the messages in order, and what is not whole
  -- stays in the buffer.
  pub on_message-frames :
      (ms : List (List ℕ)) (last : List ℕ) (fuel w : ℕ) {b : Buffer} (conn : Connection)
      → AreShort ms
      → IsPartial last
      → IsValid b
      → contents b ≡ frames ms ++ last
      → length (contents b) < fuel
      → b.writer ≤ w
      → cheap_prepend ≤ w
      → Decoded last w (call_all cb ms conn) (on_message cb fuel b conn)
  on_message-frames ms last fuel w conn short partial =
      on_message-stops ms last fuel w conn (λ c. c)
        (λ b' c v e. round-partial c v (subst IsPartial (sym e) partial)) short

  -- `onMessage` on a valid buffer with short messages, each after its length, and after them a
  -- length that is negative or over 65536: the loop ends, the callback gets the messages in order,
  -- then the connection is shut down, and the length stays in the buffer.
  pub on_message-shutdown :
      (ms : List (List ℕ)) (last : List ℕ) (fuel w : ℕ) {b : Buffer} (conn : Connection)
      → AreShort ms
      → header_len ≤ length last
      → max_len < told last
      → IsValid b
      → contents b ≡ frames ms ++ last
      → length (contents b) < fuel
      → b.writer ≤ w
      → cheap_prepend ≤ w
      → Decoded last w (shutdown (call_all cb ms conn)) (on_message cb fuel b conn)
  on_message-shutdown ms last fuel w conn short size long =
      on_message-stops ms last fuel w conn shutdown
        (λ b' c v e.
          round-invalid c v (subst (λ x. header_len ≤ length x) (sym e) size)
            (subst (λ x. max_len < told x) (sym e) long))
        short
