-- ===== src/Loop/Steps.antt =====
-- The loop of muduo/net/EventLoop.cc and other threads, step by step.
use cs_note.Common.{ℕ, suc, ◌-◌, ◌≡◌, ◌<◌, true, false, List, [], ◌∷◌, ltb, ok}
use cs_note.Loop.{
  EventLoop, new_loop, started, wakeup_channel, has, wakeup, enter, leave, poll, handle_event,
  end_events, swap_functors, run_functor, end_functors, run_functors, handle_events, turn,
  push_functor, queue_in_loop, set_quit,
}

-- Where the loop's thread is: out of `loop`, at the test of `while`, in the poller, with channels left to
-- handle, or with functors left to run.
pub data Point : Type 0 where
  outside checking polling : Point
  handling : List ℕ → Point
  running : List ℕ → Point

-- The last constructors are other threads', and may come at any point. The loop's thread queues functors
-- and quits from callbacks, while it handles channels or runs functors.
pub data Step : Point → EventLoop → Point → EventLoop → Type 0 where
  enters : {l : EventLoop} → enter l ≡ ok (started l) → Step outside l checking (started l)
  leaves : {l : EventLoop} → l.quit ≡ true → Step checking l outside (leave l)
  continues : {l : EventLoop} → l.quit ≡ false → Step checking l polling l
  polls :
      {l : EventLoop} (active : List ℕ)
      → has wakeup_channel active ≡ ltb 0 l.counter
      → Step polling l (handling active) (poll active l)
  handles :
      {l : EventLoop} (c : ℕ) (cs : List ℕ)
      → Step (handling (c ∷ cs)) l (handling cs) (handle_event c l)
  swaps :
      {l : EventLoop}
      → Step (handling []) l (running l.pending_functors) (swap_functors (end_events l))
  runs :
      {l : EventLoop} (f : ℕ) (fs : List ℕ)
      → Step (running (f ∷ fs)) l (running fs) (run_functor f l)
  finishes : {l : EventLoop} → Step (running []) l checking (end_functors l)
  callback_queues :
      {l : EventLoop} (f : ℕ) (cs : List ℕ)
      → Step (handling cs) l (handling cs) (queue_in_loop true f l)
  functor_queues :
      {l : EventLoop} (f : ℕ) (fs : List ℕ)
      → Step (running fs) l (running fs) (queue_in_loop true f l)
  callback_quits : {l : EventLoop} (cs : List ℕ) → Step (handling cs) l (handling cs) (set_quit l)
  functor_quits : {l : EventLoop} (fs : List ℕ) → Step (running fs) l (running fs) (set_quit l)
  other_queues :
      {l : EventLoop} {p : Point} (f : ℕ)
      → Step p l p (record (push_functor f l) { waking = suc l.waking })
  other_quits :
      {l : EventLoop} {p : Point} → Step p l p (record (set_quit l) { waking = suc l.waking })
  other_wakes :
      {l : EventLoop} {p : Point}
      → 0 < l.waking
      → Step p l p (record (wakeup l) { waking = l.waking - 1 })

pub data Reaches : Point → EventLoop → Type 0 where
  made : Reaches outside new_loop
  next : {p p' : Point} {l l' : EventLoop} → Reaches p l → Step p l p' l' → Reaches p' l'

-- The steps of the thread alone.
handle_all :
    (cs : List ℕ) (l : EventLoop)
    → Reaches (handling cs) l
    → Reaches (handling []) (handle_events cs l)
handle_all [] l r = r
handle_all (c ∷ cs) l r = handle_all cs (handle_event c l) (next r (handles c cs))

run_all :
    (fs : List ℕ) (l : EventLoop)
    → Reaches (running fs) l
    → Reaches (running []) (run_functors fs l)
run_all [] l r = r
run_all (f ∷ fs) l r = run_all fs (run_functor f l) (next r (runs f fs))

pub turn-Reaches :
    (active : List ℕ) (l : EventLoop)
    → Reaches polling l
    → has wakeup_channel active ≡ ltb 0 l.counter
    → Reaches checking (turn active l)
turn-Reaches active l r e =
    let l' = handle_events active (poll active l) in
    next
      (run_all l'.pending_functors (swap_functors (end_events l'))
        (next (handle_all active (poll active l) (next r (polls active e))) swaps))
      finishes
