-- ===== src/Sync/Latch/Waiting.antt =====
-- The threads of muduo/base/CountDownLatch.cc over time.
use cs_note.Common.{
  ℕ, suc, ◌≡◌, ap, ◌∙◌, Bool, true, Bool-cases, inl, inr, ◌-ℤ◌, eqb_ℤ, ◌||◌, ltb, leb, ◌==◌, pos,
  ltb_ℤ, sub_ℕ, arith,
}
use cs_note.Sync.{resume, awaken}
use cs_note.Sync.Latch.{CountDownLatch, new_latch, wait_latch, count_down}

pub data Op : Type 0 where
  waits waits_again counts spurious : Op

abbrev pub perform : Op → CountDownLatch → CountDownLatch
perform waits l = wait_latch l
perform waits_again l = wait_latch (record l { condition = resume l.condition })
perform counts l = count_down l
perform spurious l = record l { condition = awaken l.condition }

-- There is a thread that does it.
abbrev pub is_possible : Op → CountDownLatch → Bool
is_possible waits l = true
is_possible waits_again l = ltb 0 (l.condition.awake)
is_possible counts l = true
is_possible spurious l = ltb 0 (l.condition.waiting)

pub data Reaches (count : ℕ) : CountDownLatch → Type 0 where
  made : Reaches count (new_latch (pos count))
  step :
      {l : CountDownLatch}
      → Reaches count l
      → (o : Op) → is_possible o l ≡ true
      → Reaches count (perform o l)

pub record IsLatch (count : ℕ) (l : CountDownLatch) : Type 0 where
  pub counted : l.count ≡ sub_ℕ count l.downs
  pub closed : (leb count l.downs || l.passed == 0) ≡ true
  pub opened : (ltb l.downs count || l.condition.waiting == 0) ≡ true

positive_sub : (n d : ℕ) → ltb_ℤ (pos 0) (sub_ℕ n d) ≡ ltb d n
positive_sub n d = ground arith

sub_one : (n d : ℕ) → sub_ℕ n d -ℤ pos 1 ≡ sub_ℕ n (suc d)
sub_one n d = ground arith

zero_sub : (n d : ℕ) → eqb_ℤ (sub_ℕ n d) (pos 0) ≡ (n == d)
zero_sub n d = ground arith

sub_zero : (n : ℕ) → pos n ≡ sub_ℕ n 0
sub_zero n = ground arith

wait_latch-IsLatch :
    (count : ℕ) (l : CountDownLatch) → IsLatch count l → IsLatch count (wait_latch l)
wait_latch-IsLatch count l i = elim (Bool-cases (ltb l.downs count)) [
  | inl e ↦
      rw (ap (ltb_ℤ (pos 0)) i.counted ∙ positive_sub count l.downs ∙ e)
        (record { counted = i.counted; closed = i.closed; opened = ground (arith, e) })
  | inr e ↦
      rw (ap (ltb_ℤ (pos 0)) i.counted ∙ positive_sub count l.downs ∙ e)
        (record { counted = i.counted; closed = ground (arith, e); opened = i.opened })
]

count_down-IsLatch :
    (count : ℕ) (l : CountDownLatch) → IsLatch count l → IsLatch count (count_down l)
count_down-IsLatch count l i =
    let less : l.count -ℤ pos 1 ≡ sub_ℕ count (suc l.downs) =
      ap (λ z. z -ℤ pos 1) i.counted ∙ sub_one count l.downs in
    let last : eqb_ℤ (l.count -ℤ pos 1) (pos 0) ≡ (count == suc l.downs) =
      ap (λ z. eqb_ℤ z (pos 0)) less ∙ zero_sub count (suc l.downs) in
    elim (Bool-cases (count == suc l.downs)) [
      | inl e ↦ rw (last ∙ e) (record {
        counted = less;
        closed = ground (arith, i.closed);
        opened = ground (arith, i.opened);
      })
      | inr e ↦ rw (last ∙ e) (record {
        counted = less;
        closed = ground (arith, i.closed);
        opened = ground (arith, i.opened, e);
      })
    ]

perform-IsLatch :
    (count : ℕ) (o : Op) (l : CountDownLatch)
    → is_possible o l ≡ true
    → IsLatch count l
    → IsLatch count (perform o l)
perform-IsLatch count waits l h i = wait_latch-IsLatch count l i
perform-IsLatch count waits_again l h i =
    wait_latch-IsLatch count (record l { condition = resume l.condition })
      (record { counted = i.counted; closed = i.closed; opened = i.opened })
perform-IsLatch count counts l h i = count_down-IsLatch count l i
perform-IsLatch count spurious l h i = record {
  counted = i.counted;
  closed = i.closed;
  opened = ground (arith, i.opened);
}

-- In every reachable latch with a count of 0 or more: no call of `wait` has returned before `countDown`
-- was called that often, and from then on no thread waits.
pub Reaches-IsLatch : (count : ℕ) (l : CountDownLatch) → Reaches count l → IsLatch count l
Reaches-IsLatch count _ made = record {
  counted = sub_zero count;
  closed = ground arith;
  opened = ground arith;
}
Reaches-IsLatch count _ (step {l} r o h) = perform-IsLatch count o l h (Reaches-IsLatch count l r)
