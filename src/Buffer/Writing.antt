-- ===== src/Buffer/Writing.antt =====
-- The writing half of muduo/net/Buffer.h: growth and `append`.
use cs_note.Common.{
  ℕ, ◌+◌, ◌-◌, ◌≤◌, ◌<◌, ◌≡◌, refl, sym, ap, ◌∙◌, List, ◌++◌, append_assoc, arith, length, take,
  drop, ltb, replicate, length-append, length-take, length-replicate, take-append-drop, take-all,
  Checked, ok, le→leb, Bool-cases, inl, inr, ltb→lt, add_size, max_size, subst,
}
use cs_note.Buffer.{
  Buffer, cheap_prepend, contents, writable_bytes, splice, resize, make_space,
  ensure_writable_bytes, has_written, append_sized, append,
}
use cs_note.Buffer.Contents.{
  IsValid, Holds, Result, length-Holds, contents-Holds, Holds-contents, length-contents,
  length-splice, splice-middle,
}

-- Room for `n` more bytes, with the content as it was.
pub record Roomy (n : ℕ) (b : Buffer) (r : Checked Buffer) : Type 0 where
  pub buffer : Buffer
  pub returned : r ≡ ok buffer
  pub valid : IsValid buffer
  pub same : contents buffer ≡ contents b
  pub roomy : n ≤ writable_bytes buffer
  pub low : buffer.writer ≤ b.writer

grow-Holds :
    {b : Buffer} {c : List ℕ} (zeros : List ℕ)
    → Holds b c
    → Holds (record b { bytes = b.bytes ++ zeros }) c
grow-Holds {b} {c} zeros h = record {
  before = h.before;
  after = h.after ++ zeros;
  split =
      ap (λ l. l ++ zeros) h.split
      ∙ append_assoc h.before (c ++ h.after) zeros
      ∙ ap (◌++◌ h.before) (append_assoc c h.after zeros);
  at_reader = h.at_reader;
  at_writer = h.at_writer;
}

compact-Holds :
    (b : Buffer) (c : List ℕ)
    → cheap_prepend ≤ length b.bytes
    → Holds
        (record {
          bytes = splice b.bytes cheap_prepend c;
          reader = cheap_prepend;
          writer = cheap_prepend + length c;
        })
        c
compact-Holds b c le = record {
  before = take cheap_prepend b.bytes;
  after = drop (cheap_prepend + length c) b.bytes;
  split = refl;
  at_reader = omega (arith, length-take cheap_prepend b.bytes);
  at_writer = refl;
}

make_space-Roomy :
    {b : Buffer} (n : ℕ)
    → IsValid b
    → writable_bytes b < n
    → b.writer + n + cheap_prepend ≤ max_size
    → Roomy n b (make_space n b)
unfolding make_space resize
make_space-Roomy {b} n v lt fits =
    elim (Bool-cases (ltb (add_size (writable_bytes b) b.reader) (add_size n cheap_prepend))) [
      | inl small ↦
          let zeros : List ℕ = replicate (b.writer + n - length b.bytes) 0 in
          let grown : Buffer = record b { bytes = b.bytes ++ zeros } in
          let size : length grown.bytes ≡ b.writer + n = omega (
            arith,
            length-append b.bytes zeros,
            length-replicate {A = ℕ} (b.writer + n - length b.bytes) 0,
          ) in
          let whole : take (b.writer + n) b.bytes ≡ b.bytes =
            take-all (b.writer + n) b.bytes (omega arith) in
          let valid : IsValid grown = omega (arith, size) in
          record {
            buffer = grown;
            returned = ground (arith, whole);
            valid = valid;
            same = contents-Holds valid (grow-Holds zeros (Holds-contents v));
            roomy = omega (arith, size);
            low = omega arith;
          }
      | inr large ↦
          let c : List ℕ = contents b in
          let moved : Buffer = record {
            bytes = splice b.bytes cheap_prepend c;
            reader = cheap_prepend;
            writer = cheap_prepend + length c;
          } in
          let behind : cheap_prepend < b.reader = ground arith in
          let size : length moved.bytes ≡ length b.bytes =
            length-splice b.bytes c cheap_prepend (omega (arith, length-contents v)) in
          let valid : IsValid moved = omega (arith, size, length-contents v) in
          record {
            buffer = moved;
            returned = ground (arith, length-contents v);
            valid = valid;
            same = contents-Holds valid (compact-Holds b c v.room);
            roomy = ground (arith, size, length-contents v);
            low = omega (arith, length-contents v);
          }
    ]

pub ensure-Roomy :
    {b : Buffer} (n : ℕ)
    → IsValid b
    → (writable_bytes b < n → b.writer + n + cheap_prepend ≤ max_size)
    → Roomy n b (ensure_writable_bytes n b)
unfolding ensure_writable_bytes
ensure-Roomy {b} n v fits = elim (Bool-cases (ltb (writable_bytes b) n)) [
  | inl short ↦
      let lt : writable_bytes b < n = ltb→lt (writable_bytes b) n short in
      let r = make_space-Roomy n v lt (fits lt) in
      record {
        buffer = r.buffer;
        returned = rw (short, r.returned) (rw (le→leb n (writable_bytes r.buffer) r.roomy) refl);
        valid = r.valid;
        same = r.same;
        roomy = r.roomy;
        low = r.low;
      }
  | inr enough ↦
      let le : n ≤ writable_bytes b = ground arith in
      record {
        buffer = b;
        returned = rw (enough, le→leb n (writable_bytes b) le);
        valid = v;
        same = refl;
        roomy = le;
        low = omega arith;
      }
]

pub write-Holds :
    {b : Buffer} {c : List ℕ} (src : List ℕ)
    → b.writer + length src ≤ length b.bytes
    → Holds b c
    → Holds
        (record b { bytes = splice b.bytes b.writer src; writer = b.writer + length src })
        (c ++ src)
write-Holds {b} {c} src le h =
    let n : ℕ = length src in
    record {
      before = h.before;
      after = drop n h.after;
      split =
          ap (λ l. splice l b.writer src)
            (h.split
              ∙ ap (λ l. h.before ++ (c ++ l)) (sym (take-append-drop n h.after))
              ∙ sym (append_assoc h.before c (take n h.after ++ drop n h.after)))
          ∙ splice-middle (h.before ++ c) (take n h.after) (drop n h.after) src b.writer
              (omega (arith, length-append h.before c, h.at_reader, h.at_writer))
              (omega (arith, length-take n h.after, length-Holds h, h.at_writer))
          ∙ append_assoc h.before c (src ++ drop n h.after)
          ∙ ap (◌++◌ h.before) (sym (append_assoc c src (drop n h.after)));
      at_reader = h.at_reader;
      at_writer = omega (arith, length-append c src, h.at_writer);
    }

-- What `append` leaves, and that the writer index moves by the appended bytes at most.
pub record Appended (b : Buffer) (src : List ℕ) (r : Checked Buffer) : Type 0 where
  pub result : Result (contents b ++ src) r
  pub low : result.buffer.writer ≤ b.writer + length src

pub append-Roomy :
    {b : Buffer} (src : List ℕ)
    → IsValid b
    → (writable_bytes b < length src → b.writer + length src + cheap_prepend ≤ max_size)
    → Appended b src (append src b)
unfolding append append_sized has_written
append-Roomy {b} src v fits =
    let n : ℕ = length src in
    let r = ensure-Roomy n v fits in
    let e = r.buffer in
    let out : Buffer = record e { bytes = splice e.bytes e.writer src; writer = e.writer + n } in
    let ev = r.valid in
    let room : e.writer + n ≤ length e.bytes = omega (arith, r.roomy, ev.inside, ev.fits) in
    let size : length out.bytes ≡ length e.bytes = length-splice e.bytes src e.writer room in
    let holds : Holds out (contents b ++ src) =
      subst (λ c. Holds out (c ++ src)) r.same (write-Holds src room (Holds-contents ev)) in
    let valid : IsValid out = omega (arith, size, room, ev.ordered, ev.fits, ev.room) in
    record {
      result = record {
        buffer = out;
        returned =
            rw (r.returned, take-all n src (omega arith)) (ground (arith, size, room, ev.fits));
        valid = valid;
        holds = contents-Holds valid holds;
      };
      low = omega (arith, r.low);
    }

-- On a valid buffer `append` adds its bytes at the end of the content, growing or compacting the
-- storage as needed, and no assertion fails and no exception is thrown, as long as the size stays
-- below what a vector holds.
pub append-Result :
    {b : Buffer} (src : List ℕ)
    → IsValid b
    → b.writer + length src + cheap_prepend ≤ max_size
    → Result (contents b ++ src) (append src b)
append-Result src v fits = (append-Roomy src v (λ _. fits)).result
