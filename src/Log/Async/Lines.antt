-- ===== src/Log/Async/Lines.antt =====
-- Lines come into the buffers of muduo/base/AsyncLogging.cc.
use cs_note.Common.{
  ℕ, ◌≡◌, ◌<◌, refl, sym, ap, ◌∙◌, true, false, Option, none, some, List, [], ◌∷◌, ◌++◌, append-nil,
  append_assoc, ltb, length, length-append, arith, Checked, ok, fault, Bool-cases, inl, inr, ◌⊎◌,
}
use cs_note.Log.{FixedBuffer, avail, append}
use cs_note.Log.Async.{
  large_buffer, new_buffer, AsyncLogging, new_logging, or_new, append_line, swap_buffers,
  drop_buffers, text, write_buffers, reuse_buffers,
}

-- Where the thread is in its loop.
pub data Point : Type 0 where
  idle swapped checked written : Point

-- A line is shorter than a buffer; it may come at any time.
pub data Reaches : Point → AsyncLogging → Type 0 where
  made : Reaches idle new_logging
  appends :
      {p : Point} {l : AsyncLogging}
      → Reaches p l
      → (line : List ℕ) → length line < large_buffer
      → Reaches p (append_line line l)
  swaps : {l l' : AsyncLogging} → Reaches idle l → swap_buffers l ≡ ok l' → Reaches swapped l'
  drops :
      {l l' : AsyncLogging}
      → Reaches swapped l
      → (notice : List ℕ) → drop_buffers notice l ≡ ok l'
      → Reaches checked l'
  writes : {l : AsyncLogging} → Reaches checked l → Reaches written (write_buffers l)
  reuses : {l l' : AsyncLogging} → Reaches written l → reuse_buffers l ≡ ok l' → Reaches idle l'

-- All buffers have the same size.
unfoldable pub AreLarge : List FixedBuffer → Type 0
AreLarge [] = Unit {0}
AreLarge (b ∷ bs) = (b.size ≡ large_buffer) × AreLarge bs

-- The buffers that the thread holds and is still to write.
abbrev pub unwritten : Point → AsyncLogging → List FixedBuffer
unwritten idle l = []
unwritten swapped l = l.buffers_to_write
unwritten checked l = l.buffers_to_write
unwritten written l = []

-- What the thread holds: two empty buffers, or those to write, with at least one for each that it lacks.
abbrev pub Holds : Point → AsyncLogging → Type 0
Holds idle l =
    (l.new_buffer1 ≡ some new_buffer)
    × (l.new_buffer2 ≡ some new_buffer)
    × (l.buffers_to_write ≡ [])
Holds _ l =
    (l.new_buffer1 ≡ none)
    × (((l.new_buffer2 ≡ some new_buffer) × (0 < length l.buffers_to_write))
        ⊎ ((l.new_buffer2 ≡ none) × (1 < length l.buffers_to_write)))
    × AreLarge l.buffers_to_write

pub record IsComplete (p : Point) (l : AsyncLogging) : Type 0 where
  pub current_size : l.current_buffer.size ≡ large_buffer
  pub next : (l.next_buffer ≡ some new_buffer) ⊎ ((l.next_buffer ≡ none) × (0 < length l.buffers))
  pub large : AreLarge l.buffers
  pub holds : Holds p l
  pub order :
      l.dropped ≡ false
      → l.output ++ (text (unwritten p l) ++ (text l.buffers ++ l.current_buffer.written))
        ≡ l.appended

text-append : (bs cs : List FixedBuffer) → text (bs ++ cs) ≡ text bs ++ text cs
unfolding text
text-append [] cs = refl
text-append (b ∷ bs) cs =
    ap (λ t. b.written ++ t) (text-append bs cs) ∙ sym (append_assoc b.written (text bs) (text cs))

pub text-push :
    (bs : List FixedBuffer) (b : FixedBuffer) → text (bs ++ b ∷ []) ≡ text bs ++ b.written
unfolding text
text-push bs b = text-append bs (b ∷ []) ∙ ap (λ t. text bs ++ t) (append-nil b.written)

pub append-AreLarge :
    (bs : List FixedBuffer) (b : FixedBuffer)
    → b.size ≡ large_buffer
    → AreLarge bs
    → AreLarge (bs ++ b ∷ [])
unfolding AreLarge
append-AreLarge [] b h s = (h, tt)
append-AreLarge (c ∷ bs) b h (k, s) = (k, append-AreLarge bs b h s)

-- A fresh buffer takes a whole line.
append_fresh :
    (line : List ℕ)
    → length line < large_buffer
    → append line new_buffer ≡ record new_buffer { written = line }
unfolding append
append_fresh line h = ground (arith, h)

append_fits :
    (line : List ℕ) (b : FixedBuffer)
    → ltb (length line) (avail b) ≡ true
    → append line b ≡ record b { written = b.written ++ line }
unfolding append
append_fits line b e = rw e refl

or_new-next : (o : Option FixedBuffer) → (o ≡ some new_buffer) ⊎ (o ≡ none) → or_new o ≡ new_buffer
or_new-next none h = refl
or_new-next (some b) (inl h) = ground (arith, h)
or_new-next (some b) (inr h) = absurd (ground (arith, h))

-- What the thread holds does not change when a line comes.
abbrev touched :
    FixedBuffer → Option FixedBuffer → List FixedBuffer → List ℕ → AsyncLogging → AsyncLogging
touched current next buffers appended l = record l {
  current_buffer = current;
  next_buffer = next;
  buffers = buffers;
  appended = appended;
}

touched-Holds :
    (p : Point) (c : FixedBuffer) (n : Option FixedBuffer) (bs : List FixedBuffer) (t : List ℕ)
    (l : AsyncLogging)
    → Holds p l
    → Holds p (touched c n bs t l)
touched-Holds idle c n bs t l h = h
touched-Holds swapped c n bs t l h = h
touched-Holds checked c n bs t l h = h
touched-Holds written c n bs t l h = h

unwritten-touched :
    (p : Point) (c : FixedBuffer) (n : Option FixedBuffer) (bs : List FixedBuffer) (t : List ℕ)
    (l : AsyncLogging)
    → unwritten p (touched c n bs t l) ≡ unwritten p l
unwritten-touched idle c n bs t l = refl
unwritten-touched swapped c n bs t l = refl
unwritten-touched checked c n bs t l = refl
unwritten-touched written c n bs t l = refl

-- A line at the end of everything.
order_line :
    (output held waiting current appended line : List ℕ)
    → output ++ (held ++ (waiting ++ current)) ≡ appended
    → output ++ (held ++ (waiting ++ (current ++ line))) ≡ appended ++ line
order_line output held waiting current appended line h =
    rw (sym h, append_assoc, append_assoc, append_assoc) refl

pub next_kind :
    (l : AsyncLogging)
    → (l.next_buffer ≡ some new_buffer) ⊎ ((l.next_buffer ≡ none) × (0 < length l.buffers))
    → (l.next_buffer ≡ some new_buffer) ⊎ (l.next_buffer ≡ none)
next_kind l (inl h) = inl h
next_kind l (inr h) = inr h.0

pub append_line-IsComplete :
    (p : Point) (line : List ℕ) (l : AsyncLogging)
    → length line < large_buffer
    → IsComplete p l
    → IsComplete p (append_line line l)
unfolding append_line
append_line-IsComplete p line l low i =
    elim (Bool-cases (ltb (length line) (avail l.current_buffer))) [
      | inl e ↦
          let same : append line l.current_buffer
              ≡ record l.current_buffer { written = l.current_buffer.written ++ line } =
            append_fits line l.current_buffer e in
          rw (e, same)
            (record {
              current_size = i.current_size;
              next = i.next;
              large = i.large;
              holds =
                  touched-Holds p
                    (record l.current_buffer { written = l.current_buffer.written ++ line })
                    l.next_buffer l.buffers (l.appended ++ line) l i.holds;
              order = λ d.
                  ap
                    (λ bs.
                      l.output
                      ++ (text bs ++ (text l.buffers ++ (l.current_buffer.written ++ line))))
                    (unwritten-touched p _ _ _ _ l)
                  ∙ order_line l.output (text (unwritten p l)) (text l.buffers)
                      l.current_buffer.written l.appended line (i.order d);
            })
      | inr e ↦
          let fresh : append line (or_new l.next_buffer) ≡ record new_buffer { written = line } =
            ap (append line) (or_new-next l.next_buffer (next_kind l i.next))
            ∙ append_fresh line low in
          rw e (
            rw fresh (record {
              current_size = refl;
              next = inr (refl, ground (arith, length-append l.buffers (l.current_buffer ∷ [])));
              large = append-AreLarge l.buffers l.current_buffer i.current_size i.large;
              holds = touched-Holds p _ _ _ _ l i.holds;
              order = λ d.
                  ap
                    (λ bs.
                      l.output ++ (text bs ++ (text (l.buffers ++ l.current_buffer ∷ []) ++ line)))
                    (unwritten-touched p _ _ _ _ l)
                  ∙ ap (λ t. l.output ++ (text (unwritten p l) ++ t))
                      (ap (λ t. t ++ line) (text-push l.buffers l.current_buffer)
                        ∙ append_assoc (text l.buffers) l.current_buffer.written line)
                  ∙ order_line l.output (text (unwritten p l)) (text l.buffers)
                      l.current_buffer.written l.appended line (i.order d);
            }))
    ]

abbrev pub IsCompleteResult : Point → Checked AsyncLogging → Type 0
IsCompleteResult p (ok l) = IsComplete p l
IsCompleteResult p (fault _) = ⊥
