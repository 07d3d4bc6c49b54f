-- ===== src/Examples/Timing.antt =====
-- The theorems about muduo/net/TimerQueue.cc at concrete inputs.
use cs_note.Common.{◌≡◌, refl, true, none, some, List, [], ◌∷◌, arith, ok}
use cs_note.Timers.Sets.{Pair, member, insert, erase, before_bound, from_bound}
use cs_note.Timers.{
  Timer, TimerQueue, new_queue, put_at, deref, insert_timer, add_timer_in_loop, begin_expired,
  get_expired, deactivate,
}
use cs_note.Timers.Alarm.{wakes_by}
use cs_note.Timers.Reachable.{
  Phase, idle, calling, add, begin, run, perform, Reaches, made, step, IsSound, Reaches-IsSound,
  perform-returns, timer_fires,
}

-- A timer at the address 8, due at 100 and every 50 from then on.
abbrev timer : Timer
timer = record { expiration = 100; delta = 50; repeat = true; sequence = 1 }

abbrev waiting : TimerQueue
waiting = record new_queue {
  timers = (100, 8) ∷ [];
  active = (8, 1) ∷ [];
  store = put_at 8 (some timer) (λ a. none);
  created = 1;
  alarm = some 100;
}

abbrev expired : TimerQueue
expired = record waiting { timers = []; active = []; calling_expired_timers = true }

waiting-Reaches : Reaches idle 0 waiting
unfolding add_timer_in_loop insert_timer deref member insert
waiting-Reaches = step (made 0) (add 0 8 100 50 true) (refl, ground arith, ground arith) refl

expired-Reaches : Reaches (calling 120 ((100, 8) ∷ [])) 120 expired
unfolding begin_expired get_expired deactivate deref member erase before_bound from_bound
expired-Reaches = step waiting-Reaches (begin 120) (ground arith) refl

Reaches-IsSound_example : IsSound (calling 120 ((100, 8) ∷ [])) 120 expired
Reaches-IsSound_example = Reaches-IsSound (calling 120 ((100, 8) ∷ [])) 120 expired expired-Reaches

runs_allowed : member (100, 8) ((100, 8) ∷ []) ≡ true
unfolding member
runs_allowed = refl

perform-returns_example :
    (s : Phase × TimerQueue) × (perform (run (100, 8)) (calling 120 ((100, 8) ∷ [])) expired ≡ ok s)
perform-returns_example =
    perform-returns (calling 120 ((100, 8) ∷ [])) 120 expired (run (100, 8)) expired-Reaches
      runs_allowed

timer_fires_example :
    (wakes_by 100 (some 100) ≡ true)
    × ((es : List Pair) × (q' : TimerQueue) × (begin_expired 120 waiting ≡ ok (es, q'))
        × (member (100, 8) es ≡ true))
timer_fires_example = timer_fires 0 waiting 100 8 120 waiting-Reaches runs_allowed (ground arith)
