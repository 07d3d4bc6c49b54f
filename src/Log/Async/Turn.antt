-- ===== src/Log/Async/Turn.antt =====
-- A turn of the thread of muduo/base/AsyncLogging.cc writes what was appended before.
use cs_note.Common.{
  ℕ, suc, ◌≡◌, ◌<◌, refl, ap, ◌∙◌, false, none, some, List, [], ◌∷◌, ◌++◌, if◌then◌else◌, ltb,
  length, length-append, arith, ok,
}
use cs_note.Log.Async.{
  AsyncLogging, new_buffer, is_null, swap_buffers, drop_buffers, text, reuse_buffers, turn,
}
use cs_note.Log.Async.Lines.{idle, Reaches, text-push, append-AreLarge}
use cs_note.Log.Async.Order.{second_left, not_empty, refill-Refilled, Reaches-IsComplete}

-- All is written, and the buffers are empty.
abbrev pub flushed : AsyncLogging → AsyncLogging
flushed l = record l {
  current_buffer = new_buffer;
  next_buffer = if is_null l.next_buffer then some new_buffer else l.next_buffer;
  buffers = [];
  new_buffer1 = some new_buffer;
  new_buffer2 = some new_buffer;
  buffers_to_write = [];
  output = l.output ++ text (l.buffers ++ l.current_buffer ∷ []);
}

-- From a reachable state at the head of the loop, with less than 25 full buffers and nothing dropped so
-- far, a turn in which nothing else happens fails no assertion; it leaves all buffers empty, and in the
-- file everything that was appended, in order.
pub turn-flushed :
    (notice : List ℕ) (l : AsyncLogging)
    → Reaches idle l
    → length l.buffers < 25
    → l.dropped ≡ false
    → (turn notice l ≡ ok (flushed l)) × ((flushed l).output ≡ l.appended)
unfolding swap_buffers drop_buffers reuse_buffers text
turn-flushed notice l reached few kept =
    let i = Reaches-IsComplete idle l reached in
    let (b1, b2, empty) = i.holds in
    let bs = l.buffers ++ l.current_buffer ∷ [] in
    let size : length bs ≡ suc (length l.buffers) =
      ground (arith, length-append l.buffers (l.current_buffer ∷ [])) in
    let second = if is_null l.next_buffer then none else some new_buffer in
    let r =
      refill-Refilled second bs
        (second_left l.next_buffer (length l.buffers) (length bs) size i.next)
        (append-AreLarge l.buffers l.current_buffer i.current_size i.large) in
    let small : ltb 25 (length bs) ≡ false = ground (arith, size, few) in
    (
      rw (b1, b2, empty)
          (rw (not_empty bs (ground (arith, size)), small) (rw r.first (rw r.second refl))),
      ap (λ t. l.output ++ t) (text-push l.buffers l.current_buffer) ∙ i.order kept,
    )
