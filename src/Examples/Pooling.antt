-- ===== src/Examples/Pooling.antt =====
-- The theorem about muduo/base/ThreadPool.cc at a concrete input.
use cs_note.Common.{refl, [], ◌∷◌}
use cs_note.ThreadPool.{ThreadPool, started_pool}
use cs_note.ThreadPool.Waiting.{Reaches, started, step, runs, takes, IsServed, Reaches-IsServed}

-- A worker waits, and a task comes.
abbrev busy : ThreadPool
busy = record (started_pool 2) {
  not_empty = record { waiting = 0; awake = 1 };
  queue = 5 ∷ [];
  accepted = 5 ∷ [];
}

busy-Reaches : Reaches 2 busy
busy-Reaches = step (step started takes refl refl) (runs 5) refl refl

Reaches-IsServed_example : IsServed busy
Reaches-IsServed_example = Reaches-IsServed 2 busy busy-Reaches
