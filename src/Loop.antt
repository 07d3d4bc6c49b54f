-- ===== src/Loop.antt =====
-- muduo/net/EventLoop.cc: the loop, its pending functors and wake-ups. Functors and channels are
-- numbers. The counter of the eventfd is `counter`; what the poller returns is an argument. For other
-- threads, `queueInLoop` and `quit` are two steps with anything in between: their change, and the
-- wake-up, which `waking` threads owe.
pub mod Steps
pub mod Pending
use cs_note.Common.{
  ℕ, suc, ◌+◌, ◌-◌, ◌≡◌, ◌<◌, Bool, true, false, ◌&&◌, ◌||◌, not, Option, none, some, List, [], ◌∷◌,
  ◌++◌, if◌then◌else◌, ltb, ◌==◌, length, Checked, ok, assert, ◌>>=◌, ◌>>◌,
}
use cs_note.Timers.{TimerQueue, add_timer}

-- `queued` and `ran` record the functors that were queued and that were run, in order.
pub record EventLoop : Type 0 where
  pub looping : Bool
  pub quit : Bool
  pub event_handling : Bool
  pub calling_pending_functors : Bool
  pub iteration : ℕ
  pub active_channels : List ℕ
  pub current_active_channel : Option ℕ
  pub pending_functors : List ℕ
  pub counter : ℕ
  pub waking : ℕ
  pub queued : List ℕ
  pub ran : List ℕ

abbrev pub new_loop : EventLoop
new_loop = record {
  looping = false;
  quit = false;
  event_handling = false;
  calling_pending_functors = false;
  iteration = 0;
  active_channels = [];
  current_active_channel = none;
  pending_functors = [];
  counter = 0;
  waking = 0;
  queued = [];
  ran = [];
}

-- The channel of the eventfd.
abbrev pub wakeup_channel : ℕ
wakeup_channel = 0

abbrev pub has : ℕ → List ℕ → Bool
has x [] = false
has x (y ∷ ys) = x == y || has x ys

-- `wakeup` adds one to the counter, `handleRead` takes it back to 0.
abbrev pub wakeup : EventLoop → EventLoop
wakeup l = record l { counter = suc l.counter }

abbrev pub handle_read : EventLoop → EventLoop
handle_read l = record l { counter = 0 }

-- The beginning of `loop`, and its end.
abbrev pub started : EventLoop → EventLoop
started l = record l { looping = true; quit = false }

abbrev pub enter : EventLoop → Checked EventLoop
enter l = do assert (not l.looping); ok (started l)

abbrev pub leave : EventLoop → EventLoop
leave l = record l { looping = false }

-- `poll` has returned with these channels.
abbrev pub poll : List ℕ → EventLoop → EventLoop
poll active l = record l {
  active_channels = active;
  iteration = suc l.iteration;
  event_handling = true;
}

-- The channel of the eventfd is the loop's own; what another does comes as further steps.
abbrev pub handle_event : ℕ → EventLoop → EventLoop
handle_event c l =
    let l' : EventLoop = record l { current_active_channel = some c } in
    if c == wakeup_channel then handle_read l' else l'

abbrev pub end_events : EventLoop → EventLoop
end_events l = record l { current_active_channel = none; event_handling = false }

-- `doPendingFunctors` up to the functors, one functor, and what follows them.
abbrev pub swap_functors : EventLoop → EventLoop
swap_functors l = record l { calling_pending_functors = true; pending_functors = [] }

abbrev pub run_functor : ℕ → EventLoop → EventLoop
run_functor f l = record l { ran = l.ran ++ f ∷ [] }

abbrev pub end_functors : EventLoop → EventLoop
end_functors l = record l { calling_pending_functors = false }

abbrev pub run_functors : List ℕ → EventLoop → EventLoop
run_functors [] l = l
run_functors (f ∷ fs) l = run_functors fs (run_functor f l)

abbrev pub do_pending_functors : EventLoop → EventLoop
do_pending_functors l = end_functors (run_functors l.pending_functors (swap_functors l))

abbrev pub handle_events : List ℕ → EventLoop → EventLoop
handle_events [] l = l
handle_events (c ∷ cs) l = handle_events cs (handle_event c l)

-- One turn of the loop in which nothing else happens.
abbrev pub turn : List ℕ → EventLoop → EventLoop
turn active l = do_pending_functors (end_events (handle_events active (poll active l)))

-- The part of `queueInLoop` under the mutex.
abbrev pub push_functor : ℕ → EventLoop → EventLoop
push_functor f l = record l {
  pending_functors = l.pending_functors ++ f ∷ [];
  queued = l.queued ++ f ∷ [];
}

abbrev pub needs_wakeup : Bool → EventLoop → Bool
needs_wakeup in_loop_thread l = not in_loop_thread || l.calling_pending_functors

abbrev pub queue_in_loop : Bool → ℕ → EventLoop → EventLoop
queue_in_loop in_loop_thread f l =
    let l' = push_functor f l in if needs_wakeup in_loop_thread l' then wakeup l' else l'

abbrev pub run_in_loop : Bool → ℕ → EventLoop → EventLoop
run_in_loop in_loop_thread f l = if in_loop_thread then run_functor f l else queue_in_loop false f l

abbrev pub queue_size : EventLoop → ℕ
queue_size l = length l.pending_functors

abbrev pub set_quit : EventLoop → EventLoop
set_quit l = record l { quit = true }

abbrev pub quit : Bool → EventLoop → EventLoop
quit in_loop_thread l = let l' = set_quit l in if not in_loop_thread then wakeup l' else l'

-- What `removeChannel` asserts before it goes to the poller: an event that waits is not for the channel.
abbrev pub check_removal : ℕ → EventLoop → Checked (Unit {0})
check_removal c l =
    if l.event_handling
    then assert (
        elim l.current_active_channel [ none ↦ false | some d ↦ c == d ]
        || not (has c l.active_channels))
    else ok tt

-- Timers, at the address that the allocator gives; `delta` is what `addTime` adds for the interval, and
-- `clock` what `resetTimerfd` reads.
abbrev pub run_at : ℕ → ℕ → ℕ → TimerQueue → Checked TimerQueue
run_at clock a time q = add_timer clock a time 0 false q

abbrev pub run_after : ℕ → ℕ → ℕ → ℕ → TimerQueue → Checked TimerQueue
run_after clock a now delay q = run_at clock a (now + delay) q

abbrev pub run_every : ℕ → ℕ → ℕ → ℕ → TimerQueue → Checked TimerQueue
run_every clock a now interval q = add_timer clock a (now + interval) interval (ltb 0 interval) q
