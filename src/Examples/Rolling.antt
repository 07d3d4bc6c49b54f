-- ===== src/Examples/Rolling.antt =====
-- The theorem about muduo/base/LogFile.cc at a concrete input.
use cs_note.Common.{ℕ, refl, some, List, [], ◌∷◌, ◌++◌, arith}
use cs_note.Log.File.{
  LogFile, new_file, new_log_file, roll_file, append_unlocked, after_append, write_all, write_rest,
}
use cs_note.Log.File.Steps.{IsRolling}
use cs_note.Log.File.Rolling.{Reaches, opens, appends, Reaches-IsRolling}

-- A line of three bytes, of which the first write takes one, goes over the roll size of two; the clock
-- has gone on.
abbrev line : List ℕ
line = 104 ∷ 105 ∷ 10 ∷ []

abbrev rolled : LogFile
rolled = record (new_log_file 2 3 1024 100) {
  last_roll = 101;
  last_flush = 101;
  file = some (new_file 101);
  closed = record { name = 100; stored = line; flushed = 3; written_bytes = 3 } ∷ [];
}

rolled-Reaches : Reaches 2 3 1024 101 ([] ++ line) rolled
unfolding append_unlocked after_append roll_file write_all write_rest
rolled-Reaches =
    appends (opens 100 (omega arith)) line (1 ∷ 2 ∷ []) 101 101 (omega arith) (omega arith) refl
      refl

Reaches-IsRolling_example : IsRolling 101 line rolled
Reaches-IsRolling_example = Reaches-IsRolling 2 3 1024 101 line rolled rolled-Reaches
