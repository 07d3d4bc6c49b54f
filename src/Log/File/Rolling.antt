-- ===== src/Log/File/Rolling.antt =====
-- The files of muduo/base/LogFile.cc over time.
use cs_note.Common.{ℕ, ◌≡◌, ◌≤◌, ◌<◌, refl, subst, List, [], ◌++◌, ok, arith}
use cs_note.Log.File.{write_all, LogFile, roll_file, new_log_file, flush_current, append_unlocked}
use cs_note.Log.File.Steps.{
  IsRolling, RollingResult, roll_file-IsRolling, flush_current-IsRolling, append_unlocked-IsRolling,
  first_roll-IsRolling,
}

-- The log over time, with what has been appended and the last second that the clock has shown. The
-- clock does not go back, and the writes take the whole of each line.
pub data Reaches (roll_size flush_interval check_every_n : ℕ) : ℕ → List ℕ → LogFile → Type 0 where
  opens :
      (now : ℕ)
      → 0 < now
      → Reaches roll_size flush_interval check_every_n now []
          (new_log_file roll_size flush_interval check_every_n now)
  appends :
      {time : ℕ} {text : List ℕ} {l l' : LogFile}
      → Reaches roll_size flush_interval check_every_n time text l
      → (logline results : List ℕ) (now later : ℕ) → time ≤ now
      → now ≤ later
      → write_all results logline ≡ logline
      → append_unlocked logline results now later l ≡ ok l'
      → Reaches roll_size flush_interval check_every_n later (text ++ logline) l'
  flushes :
      {time : ℕ} {text : List ℕ} {l l' : LogFile}
      → Reaches roll_size flush_interval check_every_n time text l
      → flush_current l ≡ ok l'
      → Reaches roll_size flush_interval check_every_n time text l'
  rolls :
      {time : ℕ} {text : List ℕ} {l : LogFile}
      → Reaches roll_size flush_interval check_every_n time text l
      → (now : ℕ) → time ≤ now
      → Reaches roll_size flush_interval check_every_n now text ((roll_file now l).1)

-- In every reachable log, whose clock does not go back and whose writes take each line whole: all that
-- was appended is in its files, in order; each file was created in an earlier second than the next
-- one, and the closed ones are flushed; the period is the day of the current file; and a file over the
-- roll size was created in the last second that the clock has shown.
pub Reaches-IsRolling :
    (roll_size flush_interval check_every_n time : ℕ) (text : List ℕ) (l : LogFile)
    → Reaches roll_size flush_interval check_every_n time text l
    → IsRolling time text l
Reaches-IsRolling a b c _ _ _ (opens now h) = first_roll-IsRolling now _ refl refl (ground arith)
Reaches-IsRolling a b c _ _ _
      (appends {time} {text} {l} r logline results now later le le' whole e) =
    subst (RollingResult later (text ++ logline)) e (
      append_unlocked-IsRolling time now later text logline results l _ le le' whole
        ((Reaches-IsRolling a b c time text l r).ready))
Reaches-IsRolling a b c _ _ _ (flushes {time} {text} {l} {l'} r e) =
    subst (RollingResult time text) e
      (flush_current-IsRolling time text l (Reaches-IsRolling a b c time text l r))
Reaches-IsRolling a b c _ _ _ (rolls {time} {text} {l} r now le) =
    roll_file-IsRolling time now text l _ le ((Reaches-IsRolling a b c time text l r).ready)
