-- ===== src/LoopPool/RoundRobin.antt =====
-- Which loops muduo/net/EventLoopThreadPool.cc hands out.
use cs_note.Common.{
  ℕ, zero, suc, ◌≡◌, refl, sym, Bool, true, false, some, List, [], ◌∷◌, ◌++◌, append_assoc, arith,
  ◌==◌, length, length-append, get_elem?, Checked, ok, ◌>>=◌,
}
use cs_note.LoopPool.{
  EventLoopThreadPool, new_pool, start, loop_at, advance, get_next_loop, get_all_loops,
}

-- Several calls of `getNextLoop`, one after another.
unfoldable pub next_loops : ℕ → EventLoopThreadPool → Checked (List ℕ × EventLoopThreadPool)
next_loops zero p = ok ([], p)
next_loops (suc n) p = do
  (loop, p') ← get_next_loop p
  (rest, p'') ← next_loops n p'
  ok (loop ∷ rest, p'')

get_elem?-length :
    (before : List ℕ) (x : ℕ) (after : List ℕ)
    → get_elem? (before ++ x ∷ after) (length before) ≡ some x
get_elem?-length [] x after = refl
get_elem?-length (y ∷ before) x after = get_elem?-length before x after

-- The pool that has handed out the loops before its index.
abbrev after_some : ℕ → ℕ → List ℕ → EventLoopThreadPool
after_some base next loops = record { base_loop = base; started = true; next = next; loops = loops }

get_next_loop_lem :
    (base : ℕ) (before : List ℕ) (x : ℕ) (after : List ℕ)
    → get_next_loop (after_some base (length before) (before ++ x ∷ after))
      ≡ ok (
        x,
        after_some base
            (advance (length before) (length (before ++ x ∷ after)))
            (before ++ x ∷ after),
      )
unfolding get_next_loop loop_at
get_next_loop_lem base before x after =
    let some_loop : (length (before ++ x ∷ after) == 0) ≡ false =
      ground (arith, length-append before (x ∷ after)) in
    rw (some_loop) (rw (get_elem?-length before x after, loop_at) refl)

next_loops_lem :
    (base : ℕ) (before : List ℕ) (x : ℕ) (after : List ℕ)
    → next_loops (length (x ∷ after)) (after_some base (length before) (before ++ x ∷ after))
      ≡ ok (x ∷ after, after_some base 0 (before ++ x ∷ after))
unfolding next_loops
next_loops_lem base before x [] =
    let wraps : advance (length before) (length (before ++ x ∷ [])) ≡ 0 =
      ground (arith, length-append before (x ∷ [])) in
    rw (get_next_loop_lem base before x [], wraps) refl
next_loops_lem base before x (y ∷ after) =
    let goes_on : advance (length before) (length (before ++ x ∷ y ∷ after))
        ≡ length (before ++ x ∷ []) =
      ground (arith, length-append before (x ∷ y ∷ after), length-append before (x ∷ [])) in
    let moved : before ++ x ∷ y ∷ after ≡ (before ++ x ∷ []) ++ y ∷ after =
      sym (append_assoc before (x ∷ []) (y ∷ after)) in
    rw
      (
        get_next_loop_lem base before x (y ∷ after),
        goes_on,
        moved,
        next_loops_lem base (before ++ x ∷ []) y after,
      )
      refl

-- A new pool that is started with some threads hands out their loops in turn: as many calls as there
-- are loops give each of them once, in order, and leave the pool as it
-- was.
pub next_loops-start :
    (base : ℕ) (has_callback : Bool) (x : ℕ) (loops : List ℕ)
    → (p : EventLoopThreadPool) × (start has_callback (x ∷ loops) (new_pool base) ≡ ok (p, []))
      × (get_all_loops p ≡ ok (x ∷ loops))
      × (next_loops (length (x ∷ loops)) p ≡ ok (x ∷ loops, p))
unfolding start get_all_loops
next_loops-start base has_callback x loops =
    let some_loop : (length (x ∷ loops) == 0) ≡ false = ground arith in
    (
      after_some base 0 (x ∷ loops),
      rw some_loop refl,
      rw some_loop refl,
      next_loops_lem base [] x loops,
    )
