-- ===== src/Buffer/Filling.antt =====
-- New buffers of muduo/net/Buffer.h, `shrink`, and `readFd` of Buffer.cc.
use cs_note.Common.{
  ℕ, ◌+◌, ◌≤◌, ◌<◌, ◌≡◌, ap, ◌∙◌, List, [], ◌++◌, append_assoc, arith, length, take, drop, leb,
  replicate, length-take, length-drop, length-replicate, take-append-drop, take-all, ok, leb→le,
  Bool-cases, inl, inr, add_size, max_size, subst,
}
use cs_note.Buffer.{
  Buffer, cheap_prepend, initial_size, contents, readable_bytes, writable_bytes, splice, new,
  resize, append_sized, append, shrink, received, read_fd,
}
use cs_note.Buffer.Contents.{
  IsValid, Holds, Result, contents-Holds, Holds-contents, length-contents, length-splice,
}
use cs_note.Buffer.Writing.{write-Holds, ensure-Roomy, append-Roomy, append-Result}

abbrev pub fresh : ℕ → Buffer
fresh initial = record {
  bytes = replicate (cheap_prepend + initial) 0;
  reader = cheap_prepend;
  writer = cheap_prepend;
}

pub fresh-IsValid : (initial : ℕ) → initial + cheap_prepend ≤ max_size → IsValid (fresh initial)
fresh-IsValid initial le = omega (arith, length-replicate {A = ℕ} (cheap_prepend + initial) 0)

-- The three assertions of the constructor hold.
pub new-ok : (initial : ℕ) → initial + cheap_prepend ≤ max_size → new initial ≡ ok (fresh initial)
unfolding new resize
new-ok initial le =
    let wide : add_size cheap_prepend initial ≡ cheap_prepend + initial = omega arith in
    rw wide (
      ground (
        arith,
        length-replicate {A = ℕ} (cheap_prepend + initial) 0,
        take-all {A = ℕ} (cheap_prepend + initial) [] (omega arith),
      ))

-- On a valid buffer `readFd` adds the received bytes at the end of the content, whether they fit
-- the writable bytes or spill into `extrabuf`, as long as the size stays below what a vector
-- holds.
pub read_fd-Result :
    {b : Buffer} (got : List ℕ)
    → IsValid b
    → b.writer + length got + cheap_prepend ≤ max_size
    → (b' : Buffer) × (read_fd (received got) b ≡ ok (received got, b'))
      × IsValid b'
      × (contents b' ≡ contents b ++ got)
unfolding read_fd
read_fd-Result {b} got v fits =
    let w : ℕ = writable_bytes b in
    let now : List ℕ = take w got in
    let size-now = length-take w got in
    let room : b.writer + length now ≤ length b.bytes = omega (arith, size-now) in
    let bytes : List ℕ = splice b.bytes b.writer now in
    let size : length bytes ≡ length b.bytes = length-splice b.bytes now b.writer room in
    let stored = write-Holds now room (Holds-contents v) in
    elim (Bool-cases (leb (length got) w)) [
      | inl small ↦
          let all : now ≡ got = take-all w got (leb→le (length got) w small) in
          let out : Buffer = record {
            bytes = bytes;
            reader = b.reader;
            writer = b.writer + length now;
          } in
          let valid : IsValid out = omega (arith, size, room) in
          (
            out,
            rw small (ground (arith, all)),
            valid,
            contents-Holds valid stored ∙ ap (◌++◌ (contents b)) all,
          )
      | inr large ↦
          let full : Buffer = record { bytes = bytes; reader = b.reader; writer = length bytes } in
          let valid : IsValid full = omega (arith, size) in
          let brim : b.writer + length now ≡ length bytes = ground (arith, size, size-now) in
          let held : Holds full (contents b ++ now) =
            subst
              (λ k.
                Holds (record { bytes = bytes; reader = b.reader; writer = k }) (contents b ++ now))
              brim stored in
          let r = append-Result (drop w got) valid (ground (arith, size, length-drop w got)) in
          (
            r.buffer,
            rw (large, r.returned),
            r.valid,
            r.holds
                ∙ ap (λ c. c ++ drop w got) (contents-Holds valid held)
                ∙ append_assoc (contents b) now (drop w got)
                ∙ ap (◌++◌ (contents b)) (take-append-drop w got),
          )
    ]

-- On a valid buffer `shrink` keeps the content, as long as its length fits an `int` and the sizes
-- stay below what a vector holds.
pub shrink-Result :
    {b : Buffer} (reserve : ℕ)
    → IsValid b
    → readable_bytes b < 2_147_483_648
    → readable_bytes b + reserve + initial_size + cheap_prepend + cheap_prepend ≤ max_size
    → Result (contents b) (shrink reserve b)
unfolding shrink
shrink-Result {b} reserve v short fits =
    let f = fresh-IsValid initial_size (omega arith) in
    let n : ℕ = add_size (readable_bytes b) reserve in
    let r = ensure-Roomy n f (λ _. omega arith) in
    let a =
      (append-Roomy (contents b) r.valid
        (λ lt. absurd (omega (arith, r.roomy, length-contents v)))).result in
    record {
      buffer = a.buffer;
      returned =
          rw (new-ok initial_size (omega arith), r.returned)
            (ap (λ k. append_sized (contents b) k r.buffer) {y = length (contents b)}
                (ground (arith, length-contents v))
              ∙ (unfold append in a.returned));
      valid = a.valid;
      holds = a.holds ∙ ap (λ c. c ++ contents b) r.same;
    }
