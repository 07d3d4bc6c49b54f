-- ===== src/ThreadPool.antt =====
-- muduo/base/ThreadPool.cc: the sections under the mutex, each in one step. A section that waits on a
-- condition ends there, and the thread begins it anew when it has been woken. Tasks are numbers.
pub mod Waiting
use cs_note.Common.{
  ℕ, suc, ◌+◌, ◌-◌, Bool, true, false, ◌&&◌, ◌||◌, not, Option, none, some, List, [], ◌∷◌, ◌++◌,
  if◌then◌else◌, ltb, leb, ◌==◌, length, Checked, ok, assert, ◌>>=◌, ◌>>◌,
}
use cs_note.Sync.{Condition, new_condition, wait, notify, notify_all}

-- `accepted` and `taken` record the tasks that came into the queue and that went out, in order.
pub record ThreadPool : Type 0 where
  pub not_empty : Condition
  pub not_full : Condition
  pub queue : List ℕ
  pub max_queue_size : ℕ
  pub running : Bool
  pub accepted : List ℕ
  pub taken : List ℕ

-- A pool that has been started, with one thread or more.
abbrev pub started_pool : ℕ → ThreadPool
started_pool max_queue_size = record {
  not_empty = new_condition;
  not_full = new_condition;
  queue = [];
  max_queue_size = max_queue_size;
  running = true;
  accepted = [];
  taken = [];
}

abbrev pub queue_size : ThreadPool → ℕ
queue_size p = length p.queue

abbrev pub is_full : ThreadPool → Bool
is_full p = ltb 0 p.max_queue_size && leb p.max_queue_size (length p.queue)

-- `run` in a pool that has threads.
abbrev pub run : ℕ → ThreadPool → Checked ThreadPool
run task p =
    if is_full p && p.running
    then ok (record p { not_full = wait p.not_full })
    else if not p.running
    then ok p
    else (do
      assert (not (is_full p))
      ok (record p {
        queue = p.queue ++ task ∷ [];
        not_empty = notify p.not_empty;
        accepted = p.accepted ++ task ∷ [];
      }))

abbrev is_empty : List ℕ → Bool
is_empty [] = true
is_empty (t ∷ ts) = false

-- The front of the queue, or no task.
abbrev pub take_front : List ℕ → ThreadPool → Option ℕ × ThreadPool
take_front [] p = (none, p)
take_front (t ∷ ts) p = (
  some t,
  record p {
    queue = ts;
    not_full = if ltb 0 p.max_queue_size then notify p.not_full else p.not_full;
    taken = p.taken ++ t ∷ [];
  },
)

abbrev pub take : ThreadPool → Option ℕ × ThreadPool
take p =
    if is_empty p.queue && p.running
    then (none, record p { not_empty = wait p.not_empty })
    else take_front p.queue p

-- `stop` up to the joining of the threads.
abbrev pub stop : ThreadPool → ThreadPool
stop p = record p {
  running = false;
  not_empty = notify_all p.not_empty;
  not_full = notify_all p.not_full;
}
