-- ===== src/Examples/Writing.antt =====
-- The theorems about muduo/base/AsyncLogging.cc at concrete inputs.
use cs_note.Common.{◌≡◌, ok, refl, none, [], ◌∷◌, arith}
use cs_note.Log.{append}
use cs_note.Log.Async.{AsyncLogging, new_logging, append_line, swap_buffers, turn}
use cs_note.Log.Async.Lines.{idle, swapped, Reaches, made, appends, swaps, IsComplete}
use cs_note.Log.Async.Turn.{flushed, turn-flushed}
use cs_note.Log.Async.Order.{Reaches-IsComplete}

-- A line, and the thread takes the buffers.
abbrev taken : AsyncLogging
taken = record new_logging {
  new_buffer1 = none;
  buffers_to_write = record { size = 4_000_000; written = 104 ∷ 105 ∷ [] } ∷ [];
  appended = 104 ∷ 105 ∷ [];
}

taken-Reaches : Reaches swapped taken
unfolding append_line append swap_buffers
taken-Reaches = swaps (appends made (104 ∷ 105 ∷ []) (ground arith)) refl

Reaches-IsComplete_example : IsComplete swapped taken
Reaches-IsComplete_example = Reaches-IsComplete swapped taken taken-Reaches

-- The line is in the current buffer.
abbrev lined : AsyncLogging
lined = record new_logging {
  current_buffer = record { size = 4_000_000; written = 104 ∷ 105 ∷ [] };
  appended = 104 ∷ 105 ∷ [];
}

lined-Reaches : Reaches idle lined
unfolding append_line append
lined-Reaches = appends made (104 ∷ 105 ∷ []) (ground arith)

turn-flushed_example :
    (turn [] lined ≡ ok (flushed lined)) × ((flushed lined).output ≡ 104 ∷ 105 ∷ [])
turn-flushed_example = turn-flushed [] lined lined-Reaches (ground arith) refl
