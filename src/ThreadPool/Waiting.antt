-- ===== src/ThreadPool/Waiting.antt =====
-- The threads of muduo/base/ThreadPool.cc over time, and that none of them waits in vain.
use cs_note.Common.{
  ℕ, suc, ◌+◌, ◌≡◌, ◌≤◌, refl, sym, ap, ◌∙◌, subst, Bool, true, false, ◌&&◌, ◌||◌, none, List, [],
  ◌∷◌, ◌++◌, append_assoc, if◌then◌else◌, ltb, leb, ◌==◌, length, length-append, arith, Checked, ok,
  fault, Bool-cases, inl, inr,
}
use cs_note.Sync.{wait, resume, awaken}
use cs_note.ThreadPool.{ThreadPool, started_pool, is_full, run, take, take_front, stop, is_empty}

-- Which section a thread runs. A call begins it, a woken thread begins it anew, and a thread may wake up
-- without having been notified.
pub data Op : Type 0 where
  runs runs_again : ℕ → Op
  takes takes_again stops : Op
  spurious_empty spurious_full : Op

abbrev pub perform : Op → ThreadPool → Checked ThreadPool
perform (runs task) p = run task p
perform (runs_again task) p = run task (record p { not_full = resume p.not_full })
perform takes p = ok ((take p).1)
perform takes_again p = ok ((take (record p { not_empty = resume p.not_empty })).1)
perform stops p = ok (stop p)
perform spurious_empty p = ok (record p { not_empty = awaken p.not_empty })
perform spurious_full p = ok (record p { not_full = awaken p.not_full })

-- There is a thread that does it.
abbrev pub is_possible : Op → ThreadPool → Bool
is_possible (runs_again task) p = ltb 0 (p.not_full.awake)
is_possible takes_again p = ltb 0 (p.not_empty.awake)
is_possible spurious_empty p = ltb 0 (p.not_empty.waiting)
is_possible spurious_full p = ltb 0 (p.not_full.waiting)
is_possible _ p = true

pub data Reaches (max_queue_size : ℕ) : ThreadPool → Type 0 where
  started : Reaches max_queue_size (started_pool max_queue_size)
  step :
      {p p' : ThreadPool}
      → Reaches max_queue_size p
      → (o : Op) → is_possible o p ≡ true
      → perform o p ≡ ok p'
      → Reaches max_queue_size p'

-- Where a thread waits for a task, every task in the queue has a woken thread of its own; where one waits
-- for room, every free place has one.
pub record IsServed (p : ThreadPool) : Type 0 where
  pub tasks_awaited : (p.not_empty.waiting == 0 || leb (length p.queue) p.not_empty.awake) ≡ true
  pub room_awaited :
      (p.not_full.waiting == 0 || leb p.max_queue_size (length p.queue + p.not_full.awake)) ≡ true
  pub bounded : (p.max_queue_size == 0 || leb (length p.queue) p.max_queue_size) ≡ true
  pub stopped : (p.running || (p.not_empty.waiting == 0 && p.not_full.waiting == 0)) ≡ true
  pub order : p.taken ++ p.queue ≡ p.accepted

abbrev IsServedResult : Checked ThreadPool → Type 0
IsServedResult (ok p) = IsServed p
IsServedResult (fault _) = ⊥

-- Before a section that a woken thread begins anew, there was one thread more.
record IsEntered (empty full : ℕ) (p : ThreadPool) : Type 0 where
  pub tasks_awaited :
      (p.not_empty.waiting == 0 || leb (length p.queue) (p.not_empty.awake + empty)) ≡ true
  pub room_awaited :
      (p.not_full.waiting == 0 || leb p.max_queue_size (length p.queue + (p.not_full.awake + full)))
      ≡ true
  pub bounded : (p.max_queue_size == 0 || leb (length p.queue) p.max_queue_size) ≡ true
  pub stopped : (p.running || (p.not_empty.waiting == 0 && p.not_full.waiting == 0)) ≡ true
  pub order : p.taken ++ p.queue ≡ p.accepted

run-IsServed :
    (task full : ℕ) (p : ThreadPool) → full ≤ 1 → IsEntered 0 full p → IsServedResult (run task p)
run-IsServed task full p low i = elim (Bool-cases (is_full p && p.running)) [
  | inl e ↦ rw e (record {
    tasks_awaited = ground (arith, i.tasks_awaited);
    room_awaited = ground (arith, e);
    bounded = i.bounded;
    stopped = ground (arith, e);
    order = i.order;
  })
  | inr e ↦ elim (Bool-cases p.running) [
    | inr r ↦
        rw (e, r)
          (record {
            tasks_awaited = ground (arith, i.tasks_awaited);
            room_awaited = ground (arith, i.stopped, r);
            bounded = i.bounded;
            stopped = ground (arith, i.stopped, r);
            order = i.order;
          })
    | inl r ↦
        let size = length-append p.queue (task ∷ []) in
        let room : is_full p ≡ false = ground (arith, e, r) in
        rw (room, r)
          (record {
            tasks_awaited = ground (arith, i.tasks_awaited, size);
            room_awaited = ground (arith, i.room_awaited, size);
            bounded = ground (arith, room, size);
            stopped = refl;
            order =
                sym (append_assoc p.taken p.queue (task ∷ [])) ∙ ap (λ ts. ts ++ task ∷ []) i.order;
          })
  ]
]

abbrev take_of : List ℕ → ThreadPool → ThreadPool
take_of ts p =
    (if is_empty ts && p.running
      then (none, record p { not_empty = wait p.not_empty })
      else take_front ts p).1

take_of-IsServed :
    (ts : List ℕ) (empty : ℕ) (p : ThreadPool)
    → empty ≤ 1
    → p.queue ≡ ts
    → IsEntered empty 0 p
    → IsServed (take_of ts p)
take_of-IsServed [] empty p low e i = elim (Bool-cases p.running) [
  | inl r ↦ rw r (record {
    tasks_awaited = ground (arith, e);
    room_awaited = ground (arith, i.room_awaited);
    bounded = i.bounded;
    stopped = refl;
    order = i.order;
  })
  | inr r ↦ rw r (record {
    tasks_awaited = ground (arith, i.stopped, r);
    room_awaited = ground (arith, i.room_awaited);
    bounded = i.bounded;
    stopped = ground (arith, i.stopped, r);
    order = i.order;
  })
]
take_of-IsServed (t ∷ ts) empty p low e i =
    let size : length p.queue ≡ suc (length ts) = ap length e in
    record {
      tasks_awaited = ground (arith, i.tasks_awaited, size);
      room_awaited = ground (arith, i.room_awaited, size);
      bounded = ground (arith, i.bounded, size);
      stopped = ground (arith, i.stopped);
      order = append_assoc p.taken (t ∷ []) ts ∙ ap (λ q. p.taken ++ q) (sym e) ∙ i.order;
    }

perform-IsServed :
    (o : Op) (p : ThreadPool) → is_possible o p ≡ true → IsServed p → IsServedResult (perform o p)
perform-IsServed (runs task) p h i = run-IsServed task 0 p (ground arith) (record {
  tasks_awaited = ground (arith, i.tasks_awaited);
  room_awaited = ground (arith, i.room_awaited);
  bounded = i.bounded;
  stopped = i.stopped;
  order = i.order;
})
perform-IsServed (runs_again task) p h i =
    run-IsServed task 1 (record p { not_full = resume p.not_full }) (ground arith)
      (record {
        tasks_awaited = ground (arith, i.tasks_awaited);
        room_awaited = ground (arith, i.room_awaited, h);
        bounded = i.bounded;
        stopped = i.stopped;
        order = i.order;
      })
perform-IsServed takes p h i = take_of-IsServed p.queue 0 p (ground arith) refl (record {
  tasks_awaited = ground (arith, i.tasks_awaited);
  room_awaited = ground (arith, i.room_awaited);
  bounded = i.bounded;
  stopped = i.stopped;
  order = i.order;
})
perform-IsServed takes_again p h i =
    take_of-IsServed p.queue 1 (record p { not_empty = resume p.not_empty }) (ground arith) refl
      (record {
        tasks_awaited = ground (arith, i.tasks_awaited, h);
        room_awaited = ground (arith, i.room_awaited);
        bounded = i.bounded;
        stopped = i.stopped;
        order = i.order;
      })
perform-IsServed stops p h i = record {
  tasks_awaited = refl;
  room_awaited = refl;
  bounded = i.bounded;
  stopped = refl;
  order = i.order;
}
perform-IsServed spurious_empty p h i = record {
  tasks_awaited = ground (arith, i.tasks_awaited);
  room_awaited = i.room_awaited;
  bounded = i.bounded;
  stopped = ground (arith, i.stopped);
  order = i.order;
}
perform-IsServed spurious_full p h i = record {
  tasks_awaited = i.tasks_awaited;
  room_awaited = ground (arith, i.room_awaited);
  bounded = i.bounded;
  stopped = ground (arith, i.stopped);
  order = i.order;
}

started-IsServed : (max_queue_size : ℕ) → IsServed (started_pool max_queue_size)
started-IsServed max_queue_size = record {
  tasks_awaited = refl;
  room_awaited = refl;
  bounded = ground arith;
  stopped = refl;
  order = refl;
}

-- In every reachable pool: where a thread waits for a task, every task in the queue has a thread that has
-- been woken for it, and where one waits for room, every free place has one; the queue is within its
-- bound, if it has one; after `stop` no thread waits; and tasks leave the queue in the order in which they
-- came, each once.
pub Reaches-IsServed : (max_queue_size : ℕ) (p : ThreadPool) → Reaches max_queue_size p → IsServed p
Reaches-IsServed m _ started = started-IsServed m
Reaches-IsServed m _ (step {p} r o h e) =
    subst IsServedResult e (perform-IsServed o p h (Reaches-IsServed m p r))
