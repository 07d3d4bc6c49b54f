-- ===== src/Sync/Blocking/Waiting.antt =====
-- The threads of muduo/base/BlockingQueue.h over time, and that none of them waits in vain.
use cs_note.Common.{
  ℕ, ◌+◌, ◌≡◌, ◌≤◌, refl, sym, ap, ◌∙◌, Bool, true, ◌||◌, List, [], ◌∷◌, ◌++◌, append_assoc, ltb,
  leb, ◌==◌, length, length-append, arith,
}
use cs_note.Sync.{resume, awaken}
use cs_note.Sync.Blocking.{BlockingQueue, new_queue, put, take, take_front}

-- Which section a thread runs. A call begins it, a woken thread begins it anew, and a thread may wake up
-- without having been notified.
pub data Op : Type 0 where
  puts : ℕ → Op
  takes takes_again spurious : Op

abbrev pub perform : Op → BlockingQueue → BlockingQueue
perform (puts x) q = put x q
perform takes q = (take q).1
perform takes_again q = (take (record q { not_empty = resume q.not_empty })).1
perform spurious q = record q { not_empty = awaken q.not_empty }

-- There is a thread that does it.
abbrev pub is_possible : Op → BlockingQueue → Bool
is_possible (puts x) q = true
is_possible takes q = true
is_possible takes_again q = ltb 0 (q.not_empty.awake)
is_possible spurious q = ltb 0 (q.not_empty.waiting)

pub data Reaches : BlockingQueue → Type 0 where
  made : Reaches new_queue
  step : {q : BlockingQueue} → Reaches q → (o : Op) → is_possible o q ≡ true → Reaches (perform o q)

-- Where a thread waits, every element has a woken thread of its own.
pub record IsAwaited (q : BlockingQueue) : Type 0 where
  pub awaited : (q.not_empty.waiting == 0 || leb (length q.queue) q.not_empty.awake) ≡ true
  pub order : q.took ++ q.queue ≡ q.arrived

-- With `extra` threads that were awake and have gone on.
take_front-IsAwaited :
    (xs : List ℕ) (extra : ℕ) (q : BlockingQueue)
    → extra ≤ 1
    → q.queue ≡ xs
    → (q.not_empty.waiting == 0 || leb (length q.queue) (q.not_empty.awake + extra)) ≡ true
    → q.took ++ q.queue ≡ q.arrived
    → IsAwaited ((take_front xs q).1)
take_front-IsAwaited [] extra q low e h order = record {
  awaited = ground (arith, ap length e);
  order = order;
}
take_front-IsAwaited (x ∷ xs) extra q low e h order = record {
  awaited = ground (arith, ap length e);
  order = append_assoc q.took (x ∷ []) xs ∙ ap (λ y. q.took ++ y) (sym e) ∙ order;
}

perform-IsAwaited :
    (o : Op) (q : BlockingQueue) → is_possible o q ≡ true → IsAwaited q → IsAwaited (perform o q)
perform-IsAwaited (puts x) q h i = record {
  awaited = ground (arith, i.awaited, length-append q.queue (x ∷ []));
  order = sym (append_assoc q.took q.queue (x ∷ [])) ∙ ap (λ y. y ++ x ∷ []) i.order;
}
perform-IsAwaited takes q h i =
    take_front-IsAwaited q.queue 0 q (omega arith) refl (ground (arith, i.awaited)) i.order
perform-IsAwaited takes_again q h i =
    take_front-IsAwaited q.queue 1 (record q { not_empty = resume q.not_empty }) (omega arith) refl
      (ground (arith, i.awaited)) i.order
perform-IsAwaited spurious q h i = record { awaited = ground (arith, i.awaited); order = i.order }

-- In every reachable queue: where a thread waits for an element, every element has a thread that has
-- been woken for it; and elements leave the queue in the order in which they came, each once.
pub Reaches-IsAwaited : (q : BlockingQueue) → Reaches q → IsAwaited q
Reaches-IsAwaited _ made = record { awaited = refl; order = refl }
Reaches-IsAwaited _ (step {q} r o h) = perform-IsAwaited o q h (Reaches-IsAwaited q r)
