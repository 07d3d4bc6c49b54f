-- ===== src/Buffer/Contents.antt =====
-- The buffer of muduo/net/Buffer.h as the byte sequence between its indices: what the reading and
-- prepending operations do to it.
use cs_note.Common.{
  ℕ, ◌+◌, ◌-◌, ◌≤◌, ◌<◌, ◌≡◌, refl, sym, ap, ◌∙◌, List, ◌++◌, append_assoc, arith, length, take,
  drop, ltb, length-append, length-take, length-drop, take-append, drop-append, take-append-drop,
  take-take, drop-all, Checked, ok, fault, assertion, le→leb, Bool-cases, inl, inr, ltb→lt,
  max_size,
}
use cs_note.Buffer.{
  Buffer, cheap_prepend, contents, retrieve_all, readable_bytes, prependable_bytes, splice,
  retrieve, retrieve_as_string, prepend,
}

-- The representation invariant: the indices in order and inside the storage, which is no larger
-- than a vector can be.
pub record IsValid (b : Buffer) : Type 0 where
  pub ordered : b.reader ≤ b.writer
  pub inside : b.writer ≤ length b.bytes
  pub fits : length b.bytes ≤ max_size
  pub room : cheap_prepend ≤ length b.bytes

-- The storage, cut at the two indices.
pub record Holds (b : Buffer) (c : List ℕ) : Type 0 where
  pub before : List ℕ
  pub after : List ℕ
  pub split : b.bytes ≡ before ++ (c ++ after)
  pub at_reader : length before ≡ b.reader
  pub at_writer : b.reader + length c ≡ b.writer

pub length-Holds :
    {b : Buffer} {c : List ℕ} (h : Holds b c)
    → length b.bytes ≡ b.reader + length c + length h.after
length-Holds {b} {c} h = omega (
  arith,
  ap length h.split,
  length-append h.before (c ++ h.after),
  length-append c h.after,
  h.at_reader,
)

pub contents-Holds : {b : Buffer} {c : List ℕ} → IsValid b → Holds b c → contents b ≡ c
contents-Holds {b} {c} v h =
    rw (h.split, drop-append b.reader h.before (c ++ h.after) (sym h.at_reader))
      (take-append (readable_bytes b) c h.after (omega (arith, h.at_writer)))

pub Holds-contents : {b : Buffer} → IsValid b → Holds b (contents b)
Holds-contents {b} v = record {
  before = take b.reader b.bytes;
  after = drop (readable_bytes b) (drop b.reader b.bytes);
  split = sym (
      rw (take-append-drop (readable_bytes b) (drop b.reader b.bytes))
        (take-append-drop b.reader b.bytes));
  at_reader = omega (arith, length-take b.reader b.bytes);
  at_writer =
      omega (
        arith,
        length-take (readable_bytes b) (drop b.reader b.bytes),
        length-drop b.reader b.bytes,
      );
}

pub length-contents : {b : Buffer} → IsValid b → length (contents b) ≡ readable_bytes b
length-contents {b} v = let h = Holds-contents v in omega (arith, h.at_writer)

-- A copy over the middle of three parts, by bytes that are as many.
pub splice-middle :
    (p q r d : List ℕ) (at : ℕ)
    → at ≡ length p
    → length d ≡ length q
    → splice (p ++ (q ++ r)) at d ≡ p ++ (d ++ r)
splice-middle p q r d at e f =
    rw (take-append at p (q ++ r) e, ← append_assoc p q r)
      (rw (drop-append (at + length d) (p ++ q) r (omega (arith, length-append p q))) refl)

-- What a successful operation leaves: a valid buffer that holds `c`.
pub record Result (c : List ℕ) (r : Checked Buffer) : Type 0 where
  pub buffer : Buffer
  pub returned : r ≡ ok buffer
  pub valid : IsValid buffer
  pub holds : contents buffer ≡ c

pub Result-Holds :
    {c : List ℕ} {r : Checked Buffer} (b : Buffer) → r ≡ ok b → IsValid b → Holds b c → Result c r
Result-Holds b e v h = record { buffer = b; returned = e; valid = v; holds = contents-Holds v h }

-- Fewer bytes than there are: the reader index moves over them.
pub advance-Holds :
    {b : Buffer} {c : List ℕ} (n : ℕ)
    → n ≤ length c
    → Holds b c
    → Holds (record b { reader = b.reader + n }) (drop n c)
advance-Holds {b} {c} n le h = record {
  before = h.before ++ take n c;
  after = h.after;
  split =
      h.split
      ∙ rw (append_assoc h.before (take n c) (drop n c ++ h.after)) (
          ap (◌++◌ h.before) (
            ap (λ x. x ++ h.after) (sym (take-append-drop n c))
            ∙ append_assoc (take n c) (drop n c) h.after));
  at_reader = omega (arith, length-append h.before (take n c), length-take n c, h.at_reader);
  at_writer = omega (arith, length-drop n c, h.at_writer);
}

-- On a valid buffer `retrieve(len)` drops `len` bytes, at most the readable ones, from the front
-- of the content, whether the index moves or both indices are reset.
pub retrieve-drop :
    {b : Buffer} (n : ℕ)
    → IsValid b
    → n ≤ readable_bytes b
    → Result (drop n (contents b)) (retrieve n b)
unfolding retrieve
retrieve-drop {b} n v le = elim (Bool-cases (ltb n (readable_bytes b))) [
  | inl less ↦
      let lt : n < readable_bytes b = ltb→lt n (readable_bytes b) less in
      Result-Holds (record b { reader = b.reader + n }) (ground arith) (omega arith)
        (advance-Holds n (omega (arith, length-contents v)) (Holds-contents v))
  | inr all ↦ record {
    buffer = retrieve_all b;
    returned = ground arith;
    valid = omega arith;
    holds = sym (drop-all n (contents b) (ground (arith, length-contents v)));
  }
]

-- More bytes than there are: the assertion of `retrieve` fails.
pub retrieve-fault : (b : Buffer) (n : ℕ) → readable_bytes b < n → retrieve n b ≡ fault assertion
unfolding retrieve
retrieve-fault b n lt = ground arith

-- On a valid buffer `retrieveAsString(len)` returns the first `len` bytes, at most the readable
-- ones, and drops them.
pub retrieve_as_string-take :
    {b : Buffer} (n : ℕ)
    → IsValid b
    → n ≤ readable_bytes b
    → (b' : Buffer) × (retrieve_as_string n b ≡ ok (take n (contents b), b'))
      × IsValid b'
      × (contents b' ≡ drop n (contents b))
unfolding retrieve_as_string
retrieve_as_string-take {b} n v le =
    let r = retrieve-drop n v le in
    (
      r.buffer,
      rw (le→leb n (readable_bytes b) le, r.returned)
          (ap (λ (x : List ℕ). ok (x, r.buffer))
            (take-take n (readable_bytes b) (drop b.reader b.bytes) le)),
      r.valid,
      r.holds,
    )

-- A copy that ends where a first part ends.
splice-before :
    (before rest src : List ℕ) (start : ℕ)
    → start + length src ≡ length before
    → splice (before ++ rest) start src ≡ take start before ++ (src ++ rest)
splice-before before rest src start e =
    ap (λ p. splice (p ++ rest) start src) (sym (take-append-drop start before))
    ∙ ap (λ l. splice l start src) (append_assoc (take start before) (drop start before) rest)
    ∙ splice-middle (take start before) (drop start before) rest src start
        (omega (arith, length-take start before)) (omega (arith, length-drop start before))

prepend-Holds :
    {b : Buffer} {c : List ℕ} (src : List ℕ)
    → length src ≤ b.reader
    → Holds b c
    → Holds
        (record b {
          reader = b.reader - length src;
          bytes = splice b.bytes (b.reader - length src) src;
        })
        (src ++ c)
prepend-Holds {b} {c} src le h = record {
  before = take (b.reader - length src) h.before;
  after = h.after;
  split =
      ap (λ l. splice l (b.reader - length src) src) h.split
      ∙ splice-before h.before (c ++ h.after) src _ (omega (arith, h.at_reader))
      ∙ ap (◌++◌ (take (b.reader - length src) h.before)) (sym (append_assoc src c h.after));
  at_reader = omega (arith, length-take (b.reader - length src) h.before, h.at_reader);
  at_writer = omega (arith, length-append src c, h.at_writer);
}

pub length-splice :
    (bs src : List ℕ) (at : ℕ) → at + length src ≤ length bs → length (splice bs at src) ≡ length bs
length-splice bs src at le = omega (
  arith,
  length-append (take at bs) (src ++ drop (at + length src) bs),
  length-append src (drop (at + length src) bs),
  length-take at bs,
  length-drop (at + length src) bs,
)

-- On a valid buffer `prepend` puts the bytes in front of the content, if there is room before the
-- reader index.
pub prepend-append :
    {b : Buffer} (src : List ℕ)
    → IsValid b
    → length src ≤ prependable_bytes b
    → Result (src ++ contents b) (prepend src b)
unfolding prepend
prepend-append {b} src v le =
    Result-Holds _
      (rw (le→leb (length src) b.reader le) (
        ap (λ k. ok (record b { reader = k; bytes = splice b.bytes k src }))
          {y = b.reader - length src} (omega arith)))
      (omega (arith, length-splice b.bytes src (b.reader - length src)))
      (prepend-Holds src le (Holds-contents v))
