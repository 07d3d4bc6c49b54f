-- ===== src/Log/File.antt =====
-- muduo/base/LogFile.h, LogFile.cc and the class AppendFile of FileUtil.cc: log files that are rolled. Times
-- are seconds. What time(2) and fwrite(3) return are arguments. A file is named by the second of its
-- creation, which with the name of the log makes its name; `stored` is what stdio has taken, and
-- `flushed` how much of it has been flushed. Closed files are kept, the newest first.
pub mod Steps
pub mod Rolling
use cs_note.Common.{
  ℕ, suc, ◌+◌, ◌-◌, ◌*◌, ◌/◌, Bool, true, false, not, Option, none, some, List, [], ◌∷◌, ◌++◌,
  if◌then◌else◌, ltb, leb, ◌==◌, length, take, drop, Checked, ok, fault, dangling, ◌>>=◌,
}

pub record AppendFile : Type 0 where
  pub name : ℕ
  pub stored : List ℕ
  pub flushed : ℕ
  pub written_bytes : ℕ

abbrev pub new_file : ℕ → AppendFile
new_file name = record { name = name; stored = []; flushed = 0; written_bytes = 0 }

-- The loop of `AppendFile::append` over what the writes take of the rest; a write after the results
-- takes nothing.
unfoldable pub write_rest : List ℕ → List ℕ → List ℕ
write_rest results [] = []
write_rest [] (b ∷ rest) = []
write_rest (x ∷ results) (b ∷ rest) =
    let later = write_rest results (drop x (b ∷ rest)) in
    if x == 0 then [] else take x (b ∷ rest) ++ later

-- The first write, and the loop.
unfoldable pub write_all : List ℕ → List ℕ → List ℕ
write_all [] logline = []
write_all (x ∷ results) logline = take x logline ++ write_rest results (drop x logline)

abbrev pub append_file : List ℕ → List ℕ → AppendFile → AppendFile
append_file logline results f = record f {
  stored = f.stored ++ write_all results logline;
  written_bytes = f.written_bytes + length logline;
}

abbrev pub flush_file : AppendFile → AppendFile
flush_file f = record f { flushed = length f.stored }

abbrev pub roll_per_seconds : ℕ
roll_per_seconds = 60 * 60 * 24

pub record LogFile : Type 0 where
  pub roll_size : ℕ
  pub flush_interval : ℕ
  pub check_every_n : ℕ
  pub count : ℕ
  pub start_of_period : ℕ
  pub last_roll : ℕ
  pub last_flush : ℕ
  pub file : Option AppendFile
  pub closed : List AppendFile

-- The file that is replaced is closed, and with that flushed.
abbrev pub close_file : Option AppendFile → List AppendFile → List AppendFile
close_file none closed = closed
close_file (some f) closed = flush_file f ∷ closed

unfoldable pub roll_file : ℕ → LogFile → Bool × LogFile
roll_file now l =
    let start = now / roll_per_seconds * roll_per_seconds in
    if ltb l.last_roll now
    then (
      true,
      record l {
        last_roll = now;
        last_flush = now;
        start_of_period = start;
        file = some (new_file now);
        closed = close_file l.file l.closed;
      },
    )
    else (false, l)

abbrev pub new_log_file : ℕ → ℕ → ℕ → ℕ → LogFile
new_log_file roll_size flush_interval check_every_n now =
    (roll_file now (record {
      roll_size = roll_size;
      flush_interval = flush_interval;
      check_every_n = check_every_n;
      count = 0;
      start_of_period = 0;
      last_roll = 0;
      last_flush = 0;
      file = none;
      closed = [];
    })).1

abbrev pub flush_current : LogFile → Checked LogFile
flush_current l = elim l.file [
  | none ↦ fault dangling
  | some f ↦ ok (record l { file = some (flush_file f) })
]

-- The check of the clock, at `now`; the roll reads it again, at `later`.
unfoldable pub check_period : ℕ → ℕ → LogFile → Checked LogFile
check_period now later l =
    let this_period = now / roll_per_seconds * roll_per_seconds in
    if not (this_period == l.start_of_period)
    then ok (roll_file later l).1
    else if ltb l.flush_interval (now - l.last_flush)
    then flush_current (record l { last_flush = now })
    else ok l

-- What follows the append, for the bytes written to the file.
unfoldable pub after_append : ℕ → ℕ → ℕ → LogFile → Checked LogFile
after_append written now later l =
    if ltb l.roll_size written
    then ok (roll_file later l).1
    else if leb l.check_every_n (suc l.count)
    then check_period now later (record l { count = 0 })
    else ok (record l { count = suc l.count })

-- `append_unlocked`
unfoldable pub append_unlocked : List ℕ → List ℕ → ℕ → ℕ → LogFile → Checked LogFile
append_unlocked logline results now later l = elim l.file [
  | none ↦ fault dangling
  | some f ↦
      let f' = append_file logline results f in
      after_append f'.written_bytes now later (record l { file = some f' })
]
