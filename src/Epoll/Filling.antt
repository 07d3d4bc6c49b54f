-- ===== src/Epoll/Filling.antt =====
-- Polls of muduo/net/poller/EPollPoller.cc leave its records alone.
use cs_note.Common.{
  ℕ, ◌≡◌, sym, ◌∙◌, subst, arith, ok, Bool-cases, inl, inr, List, [], ◌∷◌, Checked, fault, ◌>>=◌,
}
use cs_note.Tcp.Channel.{Flags}
use cs_note.Epoll.{EpollEvent, set_revents, fill_active_channels, EpollPoller, maps_to, fd_of}
use cs_note.Epoll.Interest.{interest, Says, Agrees, AgreesResult}

-- Events that have happened change the objects only.
fd_of-set_revents :
    (address : ℕ) (e : Flags) (p : EpollPoller) (other : ℕ)
    → fd_of other (set_revents address e p) ≡ fd_of other p
fd_of-set_revents address e p other = ground arith

set_revents-Agrees :
    (address : ℕ) (e : Flags) (p : EpollPoller) → Agrees p → Agrees (set_revents address e p)
set_revents-Agrees address e p a = record {
  indices = λ other.
      subst (λ fd. Says (p.index other) other (p.channels fd) (interest p.calls fd))
        (sym (fd_of-set_revents address e p other)) (a.indices other);
  absent = a.absent;
  own = λ fd other m. fd_of-set_revents address e p other ∙ a.own fd other m;
  allowed = a.allowed;
}

abbrev after_poll : Checked (List ℕ × EpollPoller) → Checked EpollPoller
after_poll r = r >>= λ x. ok x.1

filled-Agrees :
    (r : Checked (List ℕ × EpollPoller)) (a : ℕ)
    → AgreesResult (after_poll r)
    → AgreesResult (after_poll (r >>= λ x. ok (a ∷ x.0, x.1)))
filled-Agrees (ok x) a h = h
filled-Agrees (fault f) a h = tt

pub fill_active_channels-Agrees :
    (es : List EpollEvent) (p : EpollPoller)
    → Agrees p
    → AgreesResult (after_poll (fill_active_channels es p))
unfolding fill_active_channels
fill_active_channels-Agrees [] p a = a
fill_active_channels-Agrees (e ∷ es) p a =
    elim (Bool-cases (maps_to (p.channels (fd_of e.address p)) e.address)) [
      | inr h ↦ rw h tt
      | inl h ↦ rw h (
          filled-Agrees (fill_active_channels es (set_revents e.address e.events p)) e.address (
            fill_active_channels-Agrees es (set_revents e.address e.events p)
              (set_revents-Agrees e.address e.events p a)))
    ]
