-- ===== src/Log/Async/Order.antt =====
-- The lines of muduo/base/AsyncLogging.cc reach the file, in order.
use cs_note.Common.{
  ℕ, zero, suc, ◌≡◌, ◌<◌, refl, ap, ◌∙◌, subst, false, Option, none, some, List, [], ◌∷◌, ◌++◌,
  append-nil, append_assoc, if◌then◌else◌, ltb, length, length-append, take, arith, ok, Bool-cases,
  inl, inr, ◌⊎◌,
}
use cs_note.Log.{FixedBuffer, reset}
use cs_note.Log.Async.{
  large_buffer, new_buffer, AsyncLogging, new_logging, is_null, is_empty, swap_buffers,
  drop_buffers, text, write_buffers, refill, reuse_buffers,
}
use cs_note.Log.Async.Lines.{
  Point, idle, swapped, checked, written, Reaches, made, appends, swaps, drops, writes, reuses,
  AreLarge, Holds, IsComplete, IsCompleteResult, text-push, append-AreLarge, next_kind,
  append_line-IsComplete,
}

next_given :
    (o : Option FixedBuffer)
    → (o ≡ some new_buffer) ⊎ (o ≡ none)
    → (if is_null o then some new_buffer else o) ≡ some new_buffer
next_given none h = refl
next_given (some b) (inl h) = h
next_given (some b) (inr h) = absurd (ground (arith, h))

pub second_left :
    (o : Option FixedBuffer) (n m : ℕ)
    → m ≡ suc n
    → (o ≡ some new_buffer) ⊎ ((o ≡ none) × (0 < n))
    → (((if is_null o then none else some new_buffer) ≡ some new_buffer) × (0 < m))
      ⊎ (((if is_null o then none else some new_buffer) ≡ none) × (1 < m))
second_left none n m e (inl h) = absurd (ground (arith, h))
second_left none n m e (inr (h, low)) = inr (refl, ground (arith, e, low))
second_left (some b) n m e h = inl (refl, ground (arith, e))

swap-IsComplete : (l : AsyncLogging) → IsComplete idle l → IsCompleteResult swapped (swap_buffers l)
unfolding swap_buffers AreLarge text
swap-IsComplete l i =
    let (b1, b2, empty) = i.holds in
    rw (b1, b2, empty)
      (record {
        current_size = refl;
        next = inl (next_given l.next_buffer (next_kind l i.next));
        large = tt;
        holds = (
          refl,
          second_left l.next_buffer (length l.buffers) (length (l.buffers ++ l.current_buffer ∷ []))
              (ground (arith, length-append l.buffers (l.current_buffer ∷ []))) i.next,
          append-AreLarge l.buffers l.current_buffer i.current_size i.large,
        );
        order = λ d.
            ap (λ t. l.output ++ t)
              (append-nil (text (l.buffers ++ l.current_buffer ∷ []))
                ∙ text-push l.buffers l.current_buffer)
            ∙ i.order d;
      })

take-AreLarge : (n : ℕ) (bs : List FixedBuffer) → AreLarge bs → AreLarge (take n bs)
unfolding AreLarge
take-AreLarge zero bs s = tt
take-AreLarge (suc n) [] s = tt
take-AreLarge (suc n) (b ∷ bs) (h, s) = (h, take-AreLarge n bs s)

pub not_empty : (bs : List FixedBuffer) → 0 < length bs → is_empty bs ≡ false
not_empty [] h = absurd (ground (arith, h))
not_empty (b ∷ bs) h = refl

-- Two buffers are left.
two_left :
    (o : Option FixedBuffer) (bs : List FixedBuffer)
    → 1 < length bs
    → ((o ≡ some new_buffer) × (0 < length bs)) ⊎ ((o ≡ none) × (1 < length bs))
    → ((o ≡ some new_buffer) × (0 < length (take 2 bs))) ⊎ ((o ≡ none) × (1 < length (take 2 bs)))
two_left o [] many h = absurd (ground (arith, many))
two_left o (b ∷ []) many h = absurd (ground (arith, many))
two_left o (b ∷ c ∷ bs) many (inl h) = inl (h.0, ground arith)
two_left o (b ∷ c ∷ bs) many (inr h) = inr (h.0, ground arith)

held : (l : AsyncLogging) → Holds swapped l → 0 < length l.buffers_to_write
held l (_, inl h, _) = h.1
held l (_, inr h, _) = ground (arith, h.1)

drop-IsComplete :
    (notice : List ℕ) (l : AsyncLogging)
    → IsComplete swapped l
    → IsCompleteResult checked (drop_buffers notice l)
unfolding drop_buffers
drop-IsComplete notice l i =
    let (b1, b2, large) = i.holds in
    elim (Bool-cases (ltb 25 (length l.buffers_to_write))) [
      | inr e ↦
          rw (not_empty l.buffers_to_write (held l i.holds), e)
            (record {
              current_size = i.current_size;
              next = i.next;
              large = i.large;
              holds = i.holds;
              order = i.order;
            })
      | inl e ↦
          rw (not_empty l.buffers_to_write (held l i.holds), e)
            (record {
              current_size = i.current_size;
              next = i.next;
              large = i.large;
              holds = (
                b1,
                two_left l.new_buffer2 l.buffers_to_write (ground (arith, e)) b2,
                take-AreLarge 2 l.buffers_to_write large,
              );
              order = λ d. absurd (ground (arith, d));
            })
    ]

write-IsComplete : (l : AsyncLogging) → IsComplete checked l → IsComplete written (write_buffers l)
unfolding text
write-IsComplete l i = record {
  current_size = i.current_size;
  next = i.next;
  large = i.large;
  holds = i.holds;
  order = λ d.
      append_assoc l.output (text l.buffers_to_write) (text l.buffers ++ l.current_buffer.written)
      ∙ i.order d;
}

reset-new : (b : FixedBuffer) → b.size ≡ large_buffer → reset b ≡ new_buffer
reset-new b h = rw h refl

-- Two buffers are used again.
pub record Refilled (b2 : Option FixedBuffer) (bs : List FixedBuffer) : Type 0 where
  pub middle : List FixedBuffer
  pub rest : List FixedBuffer
  pub first : refill none (take 2 bs) ≡ ok (some new_buffer, middle)
  pub second : refill b2 middle ≡ ok (some new_buffer, rest)

pub refill-Refilled :
    (b2 : Option FixedBuffer) (bs : List FixedBuffer)
    → ((b2 ≡ some new_buffer) × (0 < length bs)) ⊎ ((b2 ≡ none) × (1 < length bs))
    → AreLarge bs
    → Refilled b2 bs
unfolding AreLarge
refill-Refilled b2 [] (inl h) s = absurd (ground (arith, h.1))
refill-Refilled b2 [] (inr h) s = absurd (ground (arith, h.1))
refill-Refilled b2 (b ∷ []) (inr h) s = absurd (ground (arith, h.1))
refill-Refilled b2 (b ∷ []) (inl (e, _)) (h, s) = record {
  middle = [];
  rest = [];
  first = ap (λ r. ok (some r, [])) (reset-new b h);
  second = rw e refl;
}
refill-Refilled b2 (b ∷ c ∷ bs) (inl (e, _)) (h, (k, s)) = record {
  middle = b ∷ [];
  rest = b ∷ [];
  first = ap (λ r. ok (some r, b ∷ [])) (reset-new c k);
  second = rw e refl;
}
refill-Refilled b2 (b ∷ c ∷ bs) (inr (e, _)) (h, (k, s)) = record {
  middle = b ∷ [];
  rest = [];
  first = ap (λ r. ok (some r, b ∷ [])) (reset-new c k);
  second = rw e (ap (λ r. ok (some r, [])) (reset-new b h));
}

reuse-IsComplete :
    (l : AsyncLogging) → IsComplete written l → IsCompleteResult idle (reuse_buffers l)
unfolding reuse_buffers
reuse-IsComplete l i =
    let (b1, b2, large) = i.holds in
    let r = refill-Refilled l.new_buffer2 l.buffers_to_write b2 large in
    rw b1 (
      rw r.first (
        rw r.second (record {
          current_size = i.current_size;
          next = i.next;
          large = i.large;
          holds = (refl, refl, refl);
          order = i.order;
        })))

new_logging-IsComplete : IsComplete idle new_logging
unfolding AreLarge text
new_logging-IsComplete = record {
  current_size = refl;
  next = inl refl;
  large = tt;
  holds = (refl, refl, refl);
  order = λ d. refl;
}

-- In every reachable state of the logging thread and of the threads that log: unless buffers were dropped,
-- what is in the file, in the buffers that the thread is to write, in those that wait, and in the current
-- one is, in this order, what was appended; the current buffer has the size of all others; and the thread
-- holds the two empty buffers that it needs, or enough written ones to make them of.
pub Reaches-IsComplete : (p : Point) (l : AsyncLogging) → Reaches p l → IsComplete p l
Reaches-IsComplete _ _ made = new_logging-IsComplete
Reaches-IsComplete p _ (appends {l} r line low) =
    append_line-IsComplete p line l low (Reaches-IsComplete p l r)
Reaches-IsComplete _ _ (swaps {l} r e) =
    subst (IsCompleteResult swapped) e (swap-IsComplete l (Reaches-IsComplete idle l r))
Reaches-IsComplete _ _ (drops {l} r notice e) =
    subst (IsCompleteResult checked) e (drop-IsComplete notice l (Reaches-IsComplete swapped l r))
Reaches-IsComplete _ _ (writes {l} r) = write-IsComplete l (Reaches-IsComplete checked l r)
Reaches-IsComplete _ _ (reuses {l} r e) =
    subst (IsCompleteResult idle) e (reuse-IsComplete l (Reaches-IsComplete written l r))
