-- ===== src/Epoll/Agreement.antt =====
-- That the records of muduo/net/poller/EPollPoller.cc and the kernel's interest list agree.
use cs_note.Common.{ℕ, refl, none, List, [], ◌∷◌, arith, Checked, ok, fault, ◌>>=◌}
use cs_note.Tcp.Channel.{Channel, Flags}
use cs_note.Epoll.{
  k_new, EpollPoller, EpollEvent, fill_active_channels, set_events, update_channel, remove_channel,
}
use cs_note.Epoll.Interest.{interest, AreAllowed, Agrees, AgreesResult}
use cs_note.Epoll.Filling.{fill_active_channels-Agrees}
use cs_note.Epoll.Registration.{update_channel-Agrees, set_events-Agrees, remove_channel-Agrees}

-- What channels do with the poller, and polls with the events that `epoll_wait` stores.
pub data Event : Type 0 where
  updates removes : ℕ → Event
  changes : ℕ → Flags → Event
  polls : List EpollEvent → Event

unfoldable pub step : Event → EpollPoller → Checked EpollPoller
step (updates address) p = update_channel address p
step (removes address) p = remove_channel address p
step (changes address ev) p = ok (set_events address ev p)
step (polls es) p = fill_active_channels es p >>= λ x. ok x.1

unfoldable pub run : List Event → EpollPoller → Checked EpollPoller
run [] p = ok p
run (e ∷ es) p = step e p >>= run es

abbrev pub new_poller : (ℕ → Channel) → EpollPoller
new_poller objects = record {
  channels = λ fd. none;
  objects = objects;
  index = λ address. k_new;
  calls = [];
}

step-Agrees : (e : Event) (p : EpollPoller) → Agrees p → AgreesResult (step e p)
unfolding step
step-Agrees (updates address) p a = update_channel-Agrees address p a
step-Agrees (removes address) p a = remove_channel-Agrees address p a
step-Agrees (changes address ev) p a = set_events-Agrees address ev p a
step-Agrees (polls es) p a = fill_active_channels-Agrees es p a

bind-Agrees :
    (r : Checked EpollPoller) (f : EpollPoller → Checked EpollPoller)
    → ((p : EpollPoller) → Agrees p → AgreesResult (f p))
    → AgreesResult r
    → AgreesResult (r >>= f)
bind-Agrees (ok p) f h a = h p a
bind-Agrees (fault e) f h a = tt

run-Agrees : (es : List Event) (p : EpollPoller) → Agrees p → AgreesResult (run es p)
unfolding run
run-Agrees [] p a = a
run-Agrees (e ∷ es) p a = bind-Agrees (step e p) (run es) (run-Agrees es) (step-Agrees e p a)

-- Whatever channels do with a new poller, and whatever polls report, up to a failed assertion: each
-- call of `epoll_ctl` is one that epoll_ctl(2) allows, a channel with kAdded is in the interest
-- list and one with kDeleted is in the map only, and a descriptor that is not in the map is not in
-- the interest list.
pub run-new_poller-Agrees :
    (es : List Event) (objects : ℕ → Channel) → AgreesResult (run es (new_poller objects))
unfolding interest AreAllowed
run-new_poller-Agrees es objects = run-Agrees es (new_poller objects) (record {
  indices = λ address. refl;
  absent = λ fd gone. refl;
  own = λ fd address m. absurd (ground (arith, m));
  allowed = tt;
})
