-- ===== src/LoopPool.antt =====
-- muduo/net/EventLoopThreadPool.h and EventLoopThreadPool.cc: the choice of a loop for a new
-- connection. A loop is a number; the loops that `EventLoopThread::startLoop` returns are arguments.
pub mod RoundRobin
use cs_note.Common.{
  ℕ, suc, ◌%◌, Bool, true, false, not, Option, none, some, List, [], ◌∷◌, ◌++◌, if◌then◌else◌, leb,
  ◌==◌, length, get_elem?, Checked, ok, fault, out_of_range, assert, ◌>>=◌, ◌>>◌,
}

pub record EventLoopThreadPool : Type 0 where
  pub base_loop : ℕ
  pub started : Bool
  pub next : ℕ
  pub loops : List ℕ

abbrev pub new_pool : ℕ → EventLoopThreadPool
new_pool base_loop = record { base_loop = base_loop; started = false; next = 0; loops = [] }

-- `start`, for the loops of `numThreads_` new threads; the loops on which it calls `cb` itself come
-- with the pool: the base loop, if there are no threads and there is a callback.
unfoldable pub start : Bool → List ℕ → EventLoopThreadPool → Checked (EventLoopThreadPool × List ℕ)
start has_callback new_loops p = do
  assert (not p.started)
  ok (
    record p { started = true; loops = p.loops ++ new_loops },
    if (length new_loops == 0) then (if has_callback then p.base_loop ∷ [] else []) else [],
  )

-- `loops_[i]`, which is undefined out of range.
unfoldable pub loop_at : ℕ → List ℕ → Checked ℕ
loop_at i loops = elim (get_elem? loops i) [ none ↦ fault out_of_range | some loop ↦ ok loop ]

-- One step round: `++next_`, and 0 at the end.
abbrev pub advance : ℕ → ℕ → ℕ
advance next size = if leb size (suc next) then 0 else suc next

unfoldable pub get_next_loop : EventLoopThreadPool → Checked (ℕ × EventLoopThreadPool)
get_next_loop p = do
  assert p.started
  if length p.loops == 0 then ok (p.base_loop, p) else (do
    loop ← loop_at p.next p.loops
    ok (loop, record p { next = advance p.next (length p.loops) }))

unfoldable pub get_loop_for_hash : ℕ → EventLoopThreadPool → Checked ℕ
get_loop_for_hash hash_code p =
    if length p.loops == 0 then ok p.base_loop else loop_at (hash_code % length p.loops) p.loops

unfoldable pub get_all_loops : EventLoopThreadPool → Checked (List ℕ)
get_all_loops p = do
  assert p.started
  ok (if length p.loops == 0 then p.base_loop ∷ [] else p.loops)
