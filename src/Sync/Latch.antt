-- ===== src/Sync/Latch.antt =====
-- muduo/base/CountDownLatch.cc. `downs` and `passed` count the calls of `countDown` and the calls of
-- `wait` that have returned. `count` is a signed number without a bound, as `count_` is until 2^31 more calls of
-- `countDown` than it began with make it overflow.
pub mod Waiting
use cs_note.Common.{ℕ, suc, ◌+◌, ◌-◌, if◌then◌else◌, ℤ, pos, ◌-ℤ◌, ltb_ℤ, eqb_ℤ}
use cs_note.Sync.{Condition, new_condition, wait, notify_all}

pub record CountDownLatch : Type 0 where
  pub condition : Condition
  pub count : ℤ
  pub downs : ℕ
  pub passed : ℕ

abbrev pub new_latch : ℤ → CountDownLatch
new_latch count = record { condition = new_condition; count = count; downs = 0; passed = 0 }

-- `wait` up to the wait on the condition, or to its end.
abbrev pub wait_latch : CountDownLatch → CountDownLatch
wait_latch l =
    if ltb_ℤ (pos 0) l.count
    then record l { condition = wait l.condition }
    else record l { passed = suc l.passed }

abbrev pub count_down : CountDownLatch → CountDownLatch
count_down l =
    let count = l.count -ℤ pos 1 in
    record l {
      count = count;
      condition = if eqb_ℤ count (pos 0) then notify_all l.condition else l.condition;
      downs = suc l.downs;
    }
