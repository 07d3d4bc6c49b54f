-- ===== src/Examples/Waiting.antt =====
-- The theorems about the queues and the latch of muduo/base at concrete inputs.
use cs_note.Common.{refl, [], ◌∷◌, pos}
use cs_note.Sync.Bounded.{BoundedBlockingQueue, new_queue}
use cs_note.Sync.Bounded.Waiting.{IsSupplied, Reaches-IsSupplied}
use cs_note.Sync.Bounded.Waiting
use cs_note.Sync.Latch.{CountDownLatch, new_latch}
use cs_note.Sync.Latch.Waiting.{IsLatch, Reaches-IsLatch}
use cs_note.Sync.Latch.Waiting as Latching

-- A thread waits for an element, one comes, and a second put waits for room.
abbrev supplied : BoundedBlockingQueue
supplied = record (new_queue 1) {
  not_empty = record { waiting = 0; awake = 1 };
  not_full = record { waiting = 1; awake = 0 };
  queue = 5 ∷ [];
  arrived = 5 ∷ [];
}

Reaches-IsSupplied_example : IsSupplied 0 0 supplied
Reaches-IsSupplied_example = Reaches-IsSupplied 1 supplied (
    Waiting.step
      (Waiting.step (Waiting.step Waiting.made Waiting.takes refl refl) (Waiting.puts 5) refl refl)
      (Waiting.puts 6) refl refl)

-- Two threads are awaited, a third waits; one has counted down.
abbrev closed : CountDownLatch
closed = record (new_latch (pos 2)) {
  condition = record { waiting = 1; awake = 0 };
  count = pos 1;
  downs = 1;
}

Reaches-IsLatch_example : IsLatch 2 closed
Reaches-IsLatch_example =
    Reaches-IsLatch 2 closed
      (Latching.step (Latching.step Latching.made Latching.waits refl) Latching.counts refl)
