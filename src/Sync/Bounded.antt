-- ===== src/Sync/Bounded.antt =====
-- muduo/base/BoundedBlockingQueue.h. `arrived` and `took` record what was put and what was taken, in
-- order. Elements are numbers, and the circular buffer of boost is a list and its capacity.
pub mod Waiting
use cs_note.Common.{
  ℕ, suc, ◌+◌, ◌-◌, Bool, not, Option, none, some, List, [], ◌∷◌, ◌++◌, if◌then◌else◌, leb, ◌==◌,
  length, Checked, ok, assert, ◌>>=◌, ◌>>◌,
}
use cs_note.Sync.{Condition, new_condition, wait, notify}

pub record BoundedBlockingQueue : Type 0 where
  pub not_empty : Condition
  pub not_full : Condition
  pub queue : List ℕ
  pub capacity : ℕ
  pub arrived : List ℕ
  pub took : List ℕ

abbrev pub new_queue : ℕ → BoundedBlockingQueue
new_queue max_size = record {
  not_empty = new_condition;
  not_full = new_condition;
  queue = [];
  capacity = max_size;
  arrived = [];
  took = [];
}

-- `circular_buffer::full`
abbrev pub full : BoundedBlockingQueue → Bool
full q = length q.queue == q.capacity

abbrev pub empty : BoundedBlockingQueue → Bool
empty q = length q.queue == 0

-- `put` up to its wait, or to its end.
abbrev pub put : ℕ → BoundedBlockingQueue → Checked BoundedBlockingQueue
put x q = if full q then ok (record q { not_full = wait q.not_full }) else (do
  assert (not (full q))
  ok (record q {
    queue = q.queue ++ x ∷ [];
    not_empty = notify q.not_empty;
    arrived = q.arrived ++ x ∷ [];
  }))

-- `take` up to its wait, or to its end with the element.
abbrev pub take_front : List ℕ → BoundedBlockingQueue → Option ℕ × BoundedBlockingQueue
take_front [] q = (none, record q { not_empty = wait q.not_empty })
take_front (x ∷ xs) q =
    (some x, record q { queue = xs; not_full = notify q.not_full; took = q.took ++ x ∷ [] })

abbrev pub take : BoundedBlockingQueue → Option ℕ × BoundedBlockingQueue
take q = take_front q.queue q
