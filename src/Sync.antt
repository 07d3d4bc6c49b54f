-- ===== src/Sync.antt =====
-- muduo/base/Condition.h, as the threads see it that wait: the section of a mutex that waits ends there,
-- and its thread begins it anew when it has been woken. The queues and the latch that stand on it
-- are the children.
pub mod Blocking
pub mod Bounded
pub mod Latch
use cs_note.Common.{ℕ, suc, ◌+◌, ◌-◌, if◌then◌else◌, ◌==◌}

-- A condition variable: the threads that wait, and those that have been woken and have not gone on yet.
pub record Condition : Type 0 where
  pub waiting : ℕ
  pub awake : ℕ

abbrev pub wait : Condition → Condition
wait c = record c { waiting = suc c.waiting }

abbrev pub notify : Condition → Condition
notify c = if c.waiting == 0 then c else record { waiting = c.waiting - 1; awake = suc c.awake }

abbrev pub notify_all : Condition → Condition
notify_all c = record { waiting = 0; awake = c.awake + c.waiting }

-- A woken thread goes on.
abbrev pub resume : Condition → Condition
resume c = record c { awake = c.awake - 1 }

abbrev pub new_condition : Condition
new_condition = record { waiting = 0; awake = 0 }

-- A thread wakes up, with or without a notification.
abbrev pub awaken : Condition → Condition
awaken c = record { waiting = c.waiting - 1; awake = suc c.awake }
