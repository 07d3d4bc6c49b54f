-- ===== src/Sync/Blocking.antt =====
-- muduo/base/BlockingQueue.h. `arrived` and `took` record what was put and what was taken, in order.
-- Elements are numbers.
pub mod Waiting
use cs_note.Common.{
  ℕ, suc, ◌+◌, ◌-◌, Option, none, some, List, [], ◌∷◌, ◌++◌, if◌then◌else◌, ◌==◌, length,
}
use cs_note.Sync.{Condition, new_condition, wait, notify}

pub record BlockingQueue : Type 0 where
  pub not_empty : Condition
  pub queue : List ℕ
  pub arrived : List ℕ
  pub took : List ℕ

abbrev pub new_queue : BlockingQueue
new_queue = record { not_empty = new_condition; queue = []; arrived = []; took = [] }

abbrev pub put : ℕ → BlockingQueue → BlockingQueue
put x q = record q {
  queue = q.queue ++ x ∷ [];
  not_empty = notify q.not_empty;
  arrived = q.arrived ++ x ∷ [];
}

-- `take` up to its wait, or to its end with the element.
abbrev pub take_front : List ℕ → BlockingQueue → Option ℕ × BlockingQueue
take_front [] q = (none, record q { not_empty = wait q.not_empty })
take_front (x ∷ xs) q = (some x, record q { queue = xs; took = q.took ++ x ∷ [] })

abbrev pub take : BlockingQueue → Option ℕ × BlockingQueue
take q = take_front q.queue q

abbrev pub size : BlockingQueue → ℕ
size q = length q.queue
