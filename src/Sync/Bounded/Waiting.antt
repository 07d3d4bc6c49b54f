-- ===== src/Sync/Bounded/Waiting.antt =====
-- The threads of muduo/base/BoundedBlockingQueue.h over time, and that none of them waits in vain.
use cs_note.Common.{
  ℕ, ◌+◌, ◌≡◌, ◌≤◌, refl, sym, ap, ◌∙◌, subst, Bool, true, ◌||◌, List, [], ◌∷◌, ◌++◌, append_assoc,
  ltb, leb, ◌==◌, length, length-append, arith, Checked, ok, fault, Bool-cases, inl, inr,
}
use cs_note.Sync.{resume, awaken}
use cs_note.Sync.Bounded.{BoundedBlockingQueue, new_queue, full, put, take, take_front}

-- Which section a thread runs. A call begins it, a woken thread begins it anew, and a thread may wake up
-- without having been notified.
pub data Op : Type 0 where
  puts puts_again : ℕ → Op
  takes takes_again spurious_empty spurious_full : Op

abbrev pub perform : Op → BoundedBlockingQueue → Checked BoundedBlockingQueue
perform (puts x) q = put x q
perform (puts_again x) q = put x (record q { not_full = resume q.not_full })
perform takes q = ok ((take q).1)
perform takes_again q = ok ((take (record q { not_empty = resume q.not_empty })).1)
perform spurious_empty q = ok (record q { not_empty = awaken q.not_empty })
perform spurious_full q = ok (record q { not_full = awaken q.not_full })

-- There is a thread that does it.
abbrev pub is_possible : Op → BoundedBlockingQueue → Bool
is_possible (puts_again x) q = ltb 0 (q.not_full.awake)
is_possible takes_again q = ltb 0 (q.not_empty.awake)
is_possible spurious_empty q = ltb 0 (q.not_empty.waiting)
is_possible spurious_full q = ltb 0 (q.not_full.waiting)
is_possible _ q = true

pub data Reaches (max_size : ℕ) : BoundedBlockingQueue → Type 0 where
  made : Reaches max_size (new_queue max_size)
  step :
      {q q' : BoundedBlockingQueue}
      → Reaches max_size q
      → (o : Op) → is_possible o q ≡ true
      → perform o q ≡ ok q'
      → Reaches max_size q'

-- Where a thread waits for an element, every element has a woken thread of its own; where one waits
-- for room, every free place has one. `taking` and `putting` threads were awake and have gone on.
pub record IsSupplied (taking putting : ℕ) (q : BoundedBlockingQueue) : Type 0 where
  pub elements :
      (q.not_empty.waiting == 0 || leb (length q.queue) (q.not_empty.awake + taking)) ≡ true
  pub room :
      (q.not_full.waiting == 0 || leb q.capacity (length q.queue + (q.not_full.awake + putting)))
      ≡ true
  pub bounded : length q.queue ≤ q.capacity
  pub order : q.took ++ q.queue ≡ q.arrived

abbrev IsSuppliedResult : Checked BoundedBlockingQueue → Type 0
IsSuppliedResult (ok q) = IsSupplied 0 0 q
IsSuppliedResult (fault e) = ⊥

put-IsSupplied :
    (x putting : ℕ) (q : BoundedBlockingQueue)
    → putting ≤ 1
    → IsSupplied 0 putting q
    → IsSuppliedResult (put x q)
put-IsSupplied x putting q low i = elim (Bool-cases (full q)) [
  | inl e ↦ rw e (record {
    elements = i.elements;
    room = ground (arith, e);
    bounded = i.bounded;
    order = i.order;
  })
  | inr e ↦
      let size = length-append q.queue (x ∷ []) in
      rw e (record {
        elements = ground (arith, i.elements, size);
        room = ground (arith, i.room, size);
        bounded = ground (arith, i.bounded, e, size);
        order = sym (append_assoc q.took q.queue (x ∷ [])) ∙ ap (λ y. y ++ x ∷ []) i.order;
      })
]

take_front-IsSupplied :
    (xs : List ℕ) (taking : ℕ) (q : BoundedBlockingQueue)
    → taking ≤ 1
    → q.queue ≡ xs
    → IsSupplied taking 0 q
    → IsSupplied 0 0 ((take_front xs q).1)
take_front-IsSupplied [] taking q low e i = record {
  elements = ground (arith, ap length e);
  room = i.room;
  bounded = i.bounded;
  order = i.order;
}
take_front-IsSupplied (x ∷ xs) taking q low e i = record {
  elements = ground (arith, i.elements, ap length e);
  room = ground (arith, i.room, ap length e);
  bounded = omega (arith, i.bounded, ap length e);
  order = append_assoc q.took (x ∷ []) xs ∙ ap (λ y. q.took ++ y) (sym e) ∙ i.order;
}

perform-IsSupplied :
    (o : Op) (q : BoundedBlockingQueue)
    → is_possible o q ≡ true
    → IsSupplied 0 0 q
    → IsSuppliedResult (perform o q)
perform-IsSupplied (puts x) q h i = put-IsSupplied x 0 q (omega arith) i
perform-IsSupplied (puts_again x) q h i =
    put-IsSupplied x 1 (record q { not_full = resume q.not_full }) (omega arith)
      (record {
        elements = i.elements;
        room = ground (arith, i.room);
        bounded = i.bounded;
        order = i.order;
      })
perform-IsSupplied takes q h i = take_front-IsSupplied q.queue 0 q (omega arith) refl i
perform-IsSupplied takes_again q h i =
    take_front-IsSupplied q.queue 1 (record q { not_empty = resume q.not_empty }) (omega arith) refl
      (record {
        elements = ground (arith, i.elements);
        room = i.room;
        bounded = i.bounded;
        order = i.order;
      })
perform-IsSupplied spurious_empty q h i = record {
  elements = ground (arith, i.elements);
  room = i.room;
  bounded = i.bounded;
  order = i.order;
}
perform-IsSupplied spurious_full q h i = record {
  elements = i.elements;
  room = ground (arith, i.room);
  bounded = i.bounded;
  order = i.order;
}

-- In every reachable bounded queue: where a thread waits for an element, every element has a thread
-- that has been woken for it, and where one waits for room, every free place has one; the queue is
-- within its capacity; and elements leave it in the order in which they came, each once.
pub Reaches-IsSupplied :
    (max_size : ℕ) (q : BoundedBlockingQueue) → Reaches max_size q → IsSupplied 0 0 q
Reaches-IsSupplied max_size _ made = record {
  elements = refl;
  room = refl;
  bounded = omega arith;
  order = refl;
}
Reaches-IsSupplied max_size _ (step {q} r o h e) =
    subst IsSuppliedResult e (perform-IsSupplied o q h (Reaches-IsSupplied max_size q r))
