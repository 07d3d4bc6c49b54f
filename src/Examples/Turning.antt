-- ===== src/Examples/Turning.antt =====
-- The theorems about muduo/net/EventLoop.cc at concrete inputs.
use cs_note.Common.{◌≡◌, refl, true, [], ◌∷◌, arith}
use cs_note.Loop.{EventLoop, new_loop, turn}
use cs_note.Loop.Steps.{
  polling, checking, enters, continues, other_queues, other_wakes, Reaches, made, next,
}
use cs_note.Loop.Pending.{IsOrderly, Reaches-IsOrderly, is_woken, poll-turn}

-- A loop in the poller, after another thread has queued a functor.
abbrev woken : EventLoop
woken = record new_loop { looping = true; pending_functors = 7 ∷ []; queued = 7 ∷ []; counter = 1 }

woken-Reaches : Reaches polling woken
woken-Reaches =
    next (next (next (next made (enters refl)) (continues refl)) (other_queues 7))
      (other_wakes (ground arith))

Reaches-IsOrderly_example : IsOrderly polling woken
Reaches-IsOrderly_example = Reaches-IsOrderly woken-Reaches

poll-turn_example :
    (is_woken woken ≡ true)
    × Reaches checking (turn (0 ∷ []) woken)
    × ((turn (0 ∷ []) woken).ran ≡ 7 ∷ [])
    × ((turn (0 ∷ []) woken).pending_functors ≡ [])
poll-turn_example = poll-turn (0 ∷ []) woken woken-Reaches refl refl
