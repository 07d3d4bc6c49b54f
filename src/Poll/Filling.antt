-- ===== src/Poll/Filling.antt =====
-- Polls of muduo/net/poller/PollPoller.cc leave the positions alone.
use cs_note.Common.{
  ℕ, zero, suc, ◌-◌, ◌≡◌, refl, ap, ◌∙◌, subst, Option, none, some, List, [], ◌∷◌, ◌==◌, get_elem?,
  arith, ℤ, pos, Checked, ok, fault, assertion, ◌>>=◌, out_of_range, dangling, overflow,
  length_error, out_of_fuel, Bool-cases, Option-cases, inl, inr,
}
use cs_note.Tcp.Channel.{Flags}
use cs_note.Epoll.{put_at}
use cs_note.Poll.{
  PollFd, PollPoller, fd_of, number_of, is_fd, find, has_revents, set_revents, report,
  fill_active_channels, poll,
}
use cs_note.Poll.Registration.{Agrees, AgreesResult, Agrees-objects}

-- Each entry is of the same descriptor before and after.
record Reported (o : Option PollFd) (i : ℕ) (f : PollFd) : Type 0 where
  entry : PollFd
  stored : o ≡ some entry
  same : entry.fd ≡ f.fd

abbrev fd_in : Option PollFd → ℤ
fd_in none = pos 0
fd_in (some f) = f.fd

report-before :
    (es : List Flags) (fs : List PollFd) (i : ℕ) (f : PollFd)
    → get_elem? (report es fs) i ≡ some f
    → Reported (get_elem? fs i) i f
report-before [] fs i f h = record { entry = f; stored = h; same = refl }
report-before (e ∷ es) [] i f h = absurd (ground (arith, h))
report-before (e ∷ es) (g ∷ fs) zero f h = record { entry = g; stored = refl; same = ap fd_in h }
report-before (e ∷ es) (g ∷ fs) (suc i) f h =
    let r = report-before es fs i f h in
    record { entry = r.entry; stored = r.stored; same = r.same }

report-after :
    (es : List Flags) (fs : List PollFd) (i : ℕ) (f : PollFd)
    → get_elem? fs i ≡ some f
    → Reported (get_elem? (report es fs) i) i f
report-after [] fs i f h = record { entry = f; stored = h; same = refl }
report-after (e ∷ es) [] i f h = absurd (ground (arith, h))
report-after (e ∷ es) (g ∷ fs) zero f h = record {
  entry = record g { revents = e };
  stored = refl;
  same = ap fd_in h;
}
report-after (e ∷ es) (g ∷ fs) (suc i) f h =
    let r = report-after es fs i f h in record { entry = r.entry; stored = r.stored; same = r.same }

report-Agrees :
    (es : List Flags) (p : PollPoller)
    → Agrees p
    → Agrees (record p { pollfds = report es p.pollfds })
report-Agrees es p a = record {
  owner = λ i f h.
      let r = report-before es p.pollfds i f h in
      subst (λ z. (b : ℕ) × (p.channels (number_of z) ≡ some b) × (p.index b ≡ some i)) r.same
        (a.owner i r.entry r.stored);
  placed = λ n b h.
      let s = a.placed n b h in
      let r = report-after es p.pollfds s.position s.entry s.stored in
      record {
        position = s.position;
        entry = r.entry;
        number = s.number;
        indexed = s.indexed;
        stored = r.stored;
        named = ap number_of r.same ∙ s.named;
      };
}

abbrev after_poll : Checked (List ℕ × PollPoller) → Checked PollPoller
after_poll r = r >>= λ x. ok x.1

filled-Agrees :
    (r : Checked (List ℕ × PollPoller)) (a : ℕ)
    → AgreesResult (after_poll r)
    → AgreesResult (after_poll (r >>= λ x. ok (a ∷ x.0, x.1)))
filled-Agrees (ok x) a h = h
filled-Agrees (fault assertion) a h = tt
filled-Agrees (fault length_error) a h = absurd h
filled-Agrees (fault out_of_range) a h = absurd h
filled-Agrees (fault out_of_fuel) a h = absurd h
filled-Agrees (fault dangling) a h = absurd h
filled-Agrees (fault overflow) a h = absurd h

set_revents-Agrees :
    (address : ℕ) (e : Flags) (p : PollPoller) → Agrees p → Agrees (set_revents address e p)
set_revents-Agrees address e p i =
    Agrees-objects p (put_at address (record (p.objects address) { revents = e }) p.objects)
      (λ a. ground arith) i

fill-Agrees :
    (n : ℕ) (fs : List PollFd) (p : PollPoller)
    → Agrees p
    → AgreesResult (after_poll (fill_active_channels n fs p))
unfolding fill_active_channels
fill-Agrees n [] p i = i
fill-Agrees n (f ∷ fs) p i = elim (Bool-cases (n == 0)) [
  | inl e ↦ rw e i
  | inr e ↦ elim (Bool-cases (has_revents f)) [
    | inr h ↦ rw (e, h) (fill-Agrees n fs p i)
    | inl h ↦ elim (Option-cases (find f.fd p)) [
      | inl q ↦ rw (e, h) (rw q tt)
      | inr (a, q) ↦ elim (Bool-cases (is_fd f.fd (fd_of a p))) [
        | inr k ↦ rw (e, h) (rw q (rw k tt))
        | inl k ↦
            rw (e, h)
              (rw q (
                rw k (
                  filled-Agrees (fill_active_channels (n - 1) fs (set_revents a f.revents p)) a (
                    fill-Agrees (n - 1) fs (set_revents a f.revents p)
                      (set_revents-Agrees a f.revents p i)))))
      ]
    ]
  ]
]

pub poll-Agrees :
    (n : ℕ) (es : List Flags) (p : PollPoller) → Agrees p → AgreesResult (after_poll (poll n es p))
unfolding poll
poll-Agrees n es p i =
    fill-Agrees n (report es p.pollfds) (record p { pollfds = report es p.pollfds })
      (report-Agrees es p i)
