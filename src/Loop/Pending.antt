-- ===== src/Loop/Pending.antt =====
-- What holds while the loop of muduo/net/EventLoop.cc runs: no functor is forgotten.
use cs_note.Common.{
  ℕ, ◌+◌, ◌-◌, ◌≡◌, ◌<◌, refl, sym, ap, ◌∙◌, Bool, true, false, ◌||◌, not, List, [], ◌∷◌, ◌++◌,
  append_assoc, append-nil, ltb, ◌==◌, arith, Bool-cases, inl, inr,
}
use cs_note.Loop.{
  EventLoop, wakeup_channel, has, wakeup, poll, handle_event, end_events, swap_functors,
  run_functor, run_functors, handle_events, turn,
}
use cs_note.Loop.Steps.{
  Point, outside, checking, polling, handling, running, Step, enters, leaves, continues, polls,
  handles, swaps, runs, finishes, callback_queues, functor_queues, callback_quits, functor_quits,
  other_queues, other_quits, other_wakes, Reaches, made, next, turn-Reaches,
}

-- A wake-up is there or on its way.
abbrev pub is_woken : EventLoop → Bool
is_woken l = ltb 0 (l.counter + l.waking)

abbrev pub is_empty : List ℕ → Bool
is_empty [] = true
is_empty (x ∷ xs) = false

-- Functors that wait come with a wake-up, except before they are taken in the same turn.
abbrev pub waits_well : Point → EventLoop → Bool
waits_well (handling cs) l = true
waits_well _ l = is_empty l.pending_functors || is_woken l

-- So does the wish to quit while the poller waits.
abbrev pub quits_well : Point → EventLoop → Bool
quits_well polling l = not l.quit || is_woken l
quits_well _ l = true

abbrev pub left_of : Point → List ℕ
left_of (running fs) = fs
left_of _ = []

abbrev pub is_running : Point → Bool
is_running (running fs) = true
is_running _ = false

abbrev pub is_handling : Point → Bool
is_handling (handling cs) = true
is_handling _ = false

abbrev pub is_outside : Point → Bool
is_outside outside = true
is_outside _ = false

pub record IsOrderly (p : Point) (l : EventLoop) : Type 0 where
  pub flags :
      (l.calling_pending_functors ≡ is_running p)
      × (l.event_handling ≡ is_handling p)
      × (l.looping ≡ not (is_outside p))
  pub order : l.ran ++ (left_of p ++ l.pending_functors) ≡ l.queued
  pub waits : waits_well p l ≡ true
  pub quits : quits_well p l ≡ true

is_empty-snoc : (l : List ℕ) (f : ℕ) → is_empty (l ++ f ∷ []) ≡ false
is_empty-snoc [] f = refl
is_empty-snoc (x ∷ l) f = refl

-- A functor goes to the end of what is queued.
order_push :
    (ran left pending queued : List ℕ) (f : ℕ)
    → ran ++ (left ++ pending) ≡ queued
    → ran ++ (left ++ (pending ++ f ∷ [])) ≡ queued ++ f ∷ []
order_push ran left pending queued f h = rw (sym h, append_assoc, append_assoc) refl

-- A thread that owes a wake-up answers for what it has changed.
owed_waits : (p : Point) (l : EventLoop) → 0 < l.waking → waits_well p l ≡ true
owed_waits outside l h = ground arith
owed_waits checking l h = ground arith
owed_waits polling l h = ground arith
owed_waits (handling cs) l h = refl
owed_waits (running fs) l h = ground arith

owed_quits : (p : Point) (l : EventLoop) → 0 < l.waking → quits_well p l ≡ true
owed_quits outside l h = refl
owed_quits checking l h = refl
owed_quits polling l h = ground arith
owed_quits (handling cs) l h = refl
owed_quits (running fs) l h = refl

-- When it pays, the wake-up is there.
paid_waits :
    (p : Point) (l : EventLoop) → waits_well p (record (wakeup l) { waking = l.waking - 1 }) ≡ true
paid_waits outside l = ground arith
paid_waits checking l = ground arith
paid_waits polling l = ground arith
paid_waits (handling cs) l = refl
paid_waits (running fs) l = ground arith

paid_quits :
    (p : Point) (l : EventLoop) → quits_well p (record (wakeup l) { waking = l.waking - 1 }) ≡ true
paid_quits outside l = refl
paid_quits checking l = refl
paid_quits polling l = ground arith
paid_quits (handling cs) l = refl
paid_quits (running fs) l = refl

Step-IsOrderly :
    {p p' : Point} {l l' : EventLoop} → Step p l p' l' → IsOrderly p l → IsOrderly p' l'
Step-IsOrderly (enters e) i = record {
  flags = (i.flags.0, i.flags.1, refl);
  order = i.order;
  waits = i.waits;
  quits = refl;
}
Step-IsOrderly (leaves e) i = record {
  flags = (i.flags.0, i.flags.1, refl);
  order = i.order;
  waits = i.waits;
  quits = refl;
}
Step-IsOrderly (continues {l} e) i = record {
  flags = i.flags;
  order = i.order;
  waits = i.waits;
  quits = ground (arith, e);
}
Step-IsOrderly (polls active e) i = record {
  flags = (i.flags.0, refl, i.flags.2);
  order = i.order;
  waits = refl;
  quits = refl;
}
Step-IsOrderly (handles {l} c cs) i = elim (Bool-cases (c == wakeup_channel)) [
  | inl e ↦ rw e (record { flags = i.flags; order = i.order; waits = refl; quits = refl })
  | inr e ↦ rw e (record { flags = i.flags; order = i.order; waits = refl; quits = refl })
]
Step-IsOrderly (swaps {l}) i = record {
  flags = (refl, refl, i.flags.2);
  order = ap (λ fs. l.ran ++ fs) (append-nil l.pending_functors) ∙ i.order;
  waits = refl;
  quits = refl;
}
Step-IsOrderly (runs {l} f fs) i = record {
  flags = i.flags;
  order = append_assoc l.ran (f ∷ []) (fs ++ l.pending_functors) ∙ i.order;
  waits = i.waits;
  quits = refl;
}
Step-IsOrderly (finishes) i = record {
  flags = (refl, i.flags.1, i.flags.2);
  order = i.order;
  waits = i.waits;
  quits = refl;
}
Step-IsOrderly (callback_queues {l} f cs) i = rw (i.flags.0) (record {
  flags = (refl, i.flags.1, i.flags.2);
  order = order_push l.ran [] l.pending_functors l.queued f i.order;
  waits = refl;
  quits = refl;
})
Step-IsOrderly (functor_queues {l} f fs) i = rw (i.flags.0) (record {
  flags = (refl, i.flags.1, i.flags.2);
  order = order_push l.ran fs l.pending_functors l.queued f i.order;
  waits = ground arith;
  quits = refl;
})
Step-IsOrderly (callback_quits cs) i = record {
  flags = i.flags;
  order = i.order;
  waits = refl;
  quits = refl;
}
Step-IsOrderly (functor_quits fs) i = record {
  flags = i.flags;
  order = i.order;
  waits = i.waits;
  quits = refl;
}
Step-IsOrderly (other_queues {l} {p} f) i = record {
  flags = i.flags;
  order = order_push l.ran (left_of p) l.pending_functors l.queued f i.order;
  waits = owed_waits p _ (ground arith);
  quits = owed_quits p _ (ground arith);
}
Step-IsOrderly (other_quits {l} {p}) i = record {
  flags = i.flags;
  order = i.order;
  waits = owed_waits p _ (ground arith);
  quits = owed_quits p _ (ground arith);
}
Step-IsOrderly (other_wakes {l} {p} h) i = record {
  flags = i.flags;
  order = i.order;
  waits = paid_waits p l;
  quits = paid_quits p l;
}

-- In every reachable state the flags say where the loop's thread is; the functors that were run, those
-- taken out and those pending are together the ones that were queued, in that order; and a functor or a
-- wish to quit that the poller would leave waiting comes with a wake-up.
pub Reaches-IsOrderly : {p : Point} {l : EventLoop} → Reaches p l → IsOrderly p l
Reaches-IsOrderly made = record {
  flags = (refl, refl, refl);
  order = refl;
  waits = refl;
  quits = refl;
}
Reaches-IsOrderly (next r s) = Step-IsOrderly s (Reaches-IsOrderly r)

-- Handling a channel leaves the queue alone.
handle_events-rest :
    (cs : List ℕ) (l : EventLoop)
    → ((handle_events cs l).pending_functors ≡ l.pending_functors)
      × ((handle_events cs l).ran ≡ l.ran)
handle_events-rest [] l = (refl, refl)
handle_events-rest (c ∷ cs) l =
    let (pending, ran) = handle_events-rest cs (handle_event c l) in
    elim (Bool-cases (c == wakeup_channel)) [
      | inl e ↦ (pending ∙ rw e refl, ran ∙ rw e refl)
      | inr e ↦ (pending ∙ rw e refl, ran ∙ rw e refl)
    ]

run_functors-rest :
    (fs : List ℕ) (l : EventLoop)
    → ((run_functors fs l).pending_functors ≡ l.pending_functors)
      × ((run_functors fs l).ran ≡ l.ran ++ fs)
run_functors-rest [] l = (refl, sym (append-nil l.ran))
run_functors-rest (f ∷ fs) l =
    let (pending, ran) = run_functors-rest fs (run_functor f l) in
    (pending, ran ∙ append_assoc l.ran (f ∷ []) fs)

-- While the poller waits in a reachable state, with a functor pending or a wish to quit: the counter of
-- the eventfd is positive, so that the poller returns, or another thread is about to add to it; and the
-- turn of the loop that follows leads, undisturbed, to a reachable state at the test of `while` in which
-- every functor queued before has been run, each once and in order.
pub poll-turn :
    (active : List ℕ) (l : EventLoop)
    → Reaches polling l
    → (l.quit || not (is_empty l.pending_functors)) ≡ true
    → has wakeup_channel active ≡ ltb 0 l.counter
    → (is_woken l ≡ true)
      × Reaches checking (turn active l)
      × ((turn active l).ran ≡ l.queued)
      × ((turn active l).pending_functors ≡ [])
poll-turn active l r waits e =
    let i = Reaches-IsOrderly r in
    let (pending, ran) = handle_events-rest active (poll active l) in
    let l' = handle_events active (poll active l) in
    let (pending', ran') = run_functors-rest l'.pending_functors (swap_functors (end_events l')) in
    (
      ground (arith, i.waits, i.quits),
      turn-Reaches active l r e,
      ran' ∙ ap (λ fs. fs ++ l'.pending_functors) ran ∙ ap (λ fs. l.ran ++ fs) pending ∙ i.order,
      pending',
    )
