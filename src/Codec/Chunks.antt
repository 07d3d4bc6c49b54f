-- ===== src/Codec/Chunks.antt =====
-- Messages of examples/asio/chat/codec.h that arrive in pieces.
use cs_note.Common.{
  ℕ, suc, ◌+◌, ◌≤◌, ◌≡◌, refl, ap, ◌∙◌, sym, subst, inl, inr, List, [], ◌∷◌, ◌++◌, append_assoc,
  append-nil, length, length-append, ok, max_size, arith,
}
use cs_note.Buffer.{Buffer, contents, readable_bytes, cheap_prepend, append}
use cs_note.Buffer.Contents.{IsValid, length-contents}
use cs_note.Buffer.Writing.{append-Roomy}
use cs_note.Tcp.Connection.{Connection}
use cs_note.Codec.{max_len, on_message, receive_all}
use cs_note.Codec.Frames.{
  frame, frames, AreShort, IsPartial, told-frame, length-frame, told, divide,
}
use cs_note.Codec.Decoding.{call_all, Decoded, on_message-frames}

call_all-append :
    (cb : List ℕ → Connection → Connection) (ms ns : List (List ℕ)) (conn : Connection)
    → call_all cb (ms ++ ns) conn ≡ call_all cb ns (call_all cb ms conn)
call_all-append cb [] ns conn = refl
call_all-append cb (m ∷ ms) ns conn = call_all-append cb ms ns (cb m conn)

AreShort-append : (ms ns : List (List ℕ)) → AreShort (ms ++ ns) → AreShort ms × AreShort ns
unfolding AreShort
AreShort-append [] ns h = (tt, h)
AreShort-append (m ∷ ms) ns (h, hs) = let (a, b) = AreShort-append ms ns hs in ((h, a), b)

-- What is not whole has no frame in it.
no_frame : (m rest part : List ℕ) → length m ≤ max_len → part ≡ frame m ++ rest → IsPartial part → ⊥
no_frame m rest part short e (inl lt) =
    omega (arith, ap length e, length-append (frame m) rest, length-frame m)
no_frame m rest part short e (inr (a, lt)) = omega (
  arith,
  ap length e,
  length-append (frame m) rest,
  length-frame m,
  ap told e,
  told-frame m rest short,
)

-- All the bytes of the chunks.
abbrev pub joined : List (List ℕ) → List ℕ
joined [] = []
joined (x ∷ xs) = x ++ joined xs

module _ (cb : List ℕ → Connection → Connection) where
  receive_all-step :
      (x : List ℕ) (xs : List (List ℕ)) (b b1 b2 : Buffer) (conn conn1 : Connection)
      → append x b ≡ ok b1
      → on_message cb (suc (readable_bytes b1)) b1 conn ≡ ok (b2, conn1)
      → receive_all cb (x ∷ xs) b conn ≡ receive_all cb xs b2 conn1
  unfolding receive_all
  receive_all-step x xs b b1 b2 conn conn1 e f = rw (e, f) refl

  -- Short messages, each after its length, that come in chunks cut anywhere: the buffer holds the
  -- first bytes of one, then the chunks are received. The callback gets the messages in order, each
  -- once, and what is not whole at the end stays in the buffer, which is valid. The bytes in all
  -- fit a vector.
  pub receive_all-frames :
      (chunks ms : List (List ℕ)) (last : List ℕ) (w : ℕ) (b : Buffer) (conn : Connection)
      → AreShort ms
      → IsPartial last
      → IsValid b
      → IsPartial (contents b)
      → contents b ++ joined chunks ≡ frames ms ++ last
      → b.writer ≤ w
      → cheap_prepend ≤ w
      → w + length (joined chunks) + cheap_prepend ≤ max_size
      → Decoded cb last
          (w + length (joined chunks))
          (call_all cb ms conn)
          (receive_all cb chunks b conn)
  receive_all-frames [] [] last w b conn short partial v part e low wide fits = record {
    buffer = b;
    returned = unfold receive_all in refl;
    valid = v;
    holds = sym (append-nil (contents b)) ∙ e;
    low = omega arith;
  }
  receive_all-frames [] (m ∷ ms) last w b conn short partial v part e low wide fits = absurd (
      no_frame m (frames ms ++ last) (contents b) (unfold AreShort in short.0)
        (sym (append-nil (contents b)) ∙ e ∙ append_assoc (frame m) (frames ms) last) part)
  receive_all-frames (x ∷ xs) ms last w b conn short partial v part e low wide fits =
      let size = length-append x (joined xs) in
      let a = append-Roomy x v (λ _. omega (arith, size)) in
      let filled : Buffer = a.result.buffer in
      let d =
        divide ms last (contents b ++ x) (joined xs) short partial
          (append_assoc (contents b) x (joined xs) ∙ e) in
      let (shorts, later) = AreShort-append d.came d.to_come (subst AreShort d.messages short) in
      let c =
        on_message-frames cb d.came d.part (suc (readable_bytes filled)) (w + length x) conn shorts
          d.partial a.result.valid (a.result.holds ∙ d.whole)
          (omega (arith, length-contents a.result.valid)) (omega (arith, a.low)) (omega arith) in
      let r =
        receive_all-frames xs d.to_come last (w + length x) c.buffer (call_all cb d.came conn) later
          partial c.valid (subst IsPartial (sym c.holds) d.partial)
          (ap (λ y. y ++ joined xs) c.holds ∙ d.rest) c.low (omega arith) (omega (arith, size)) in
      record {
        buffer = r.buffer;
        returned =
            receive_all-step x xs b filled c.buffer conn (call_all cb d.came conn) a.result.returned
              c.returned
            ∙ r.returned
            ∙ ap (λ y. ok (r.buffer, y))
                (sym (call_all-append cb d.came d.to_come conn)
                  ∙ ap (λ y. call_all cb y conn) (sym d.messages));
        valid = r.valid;
        holds = r.holds;
        low = omega (arith, r.low, size);
      }
