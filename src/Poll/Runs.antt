-- ===== src/Poll/Runs.antt =====
-- What channels may do with muduo/net/poller/PollPoller.cc, and what they may not.
use cs_note.Common.{
  ℕ, ◌-◌, ◌≡◌, refl, subst, ◌&&◌, Option, none, some, List, [], ◌∷◌, if◌then◌else◌, ◌==◌, ltb,
  length, get_elem?, set, arith, Checked, ok, fault, assertion, ◌>>=◌, out_of_range, dangling,
  overflow, length_error, out_of_fuel, Bool-cases, Option-cases, inl, inr,
}
use cs_note.Tcp.Channel.{Channel, Flags, is_none_event}
use cs_note.Epoll.{put_at, maps_to}
use cs_note.Poll.{
  poll, PollFd, PollPoller, fd_of, is_ignored, pollfd_at, same_events, number_of, set_events,
  update_existing, update_channel, move_last, remove_at, remove_indexed, tell, remove_channel,
  pop_back,
}
use cs_note.Poll.Filling.{poll-Agrees}
use cs_note.Poll.Registration.{
  Agrees, AgreesResult, update_channel-Agrees, remove_channel-Agrees, Agrees-objects,
}

-- What channels do with the poller, and polls with what poll(2) returned and stored.
pub data Event : Type 0 where
  updates removes : ℕ → Event
  changes : ℕ → Flags → Event
  polls : ℕ → List Flags → Event

unfoldable pub step : Event → PollPoller → Checked PollPoller
step (updates address) p = update_channel address p
step (removes address) p = remove_channel address p
step (changes address ev) p = ok (set_events address ev p)
step (polls n es) p = poll n es p >>= λ x. ok x.1

unfoldable pub run : List Event → PollPoller → Checked PollPoller
run [] p = ok p
run (e ∷ es) p = step e p >>= run es

abbrev pub new_poller : (ℕ → Channel) → PollPoller
new_poller objects = record {
  pollfds = [];
  channels = λ fd. none;
  objects = objects;
  index = λ address. none;
}

step-Agrees : (e : Event) (p : PollPoller) → Agrees p → AgreesResult (step e p)
unfolding step
step-Agrees (updates address) p i = update_channel-Agrees address p i
step-Agrees (removes address) p i = remove_channel-Agrees address p i
step-Agrees (changes address ev) p i =
    Agrees-objects p (put_at address (record (p.objects address) { events = ev }) p.objects)
      (λ a. ground arith) i
step-Agrees (polls n es) p i = poll-Agrees n es p i

bind-Agrees :
    (r : Checked PollPoller) (f : PollPoller → Checked PollPoller)
    → ((p : PollPoller) → Agrees p → AgreesResult (f p))
    → AgreesResult r
    → AgreesResult (r >>= f)
bind-Agrees (ok p) f h i = h p i
bind-Agrees (fault assertion) f h i = tt
bind-Agrees (fault length_error) f h i = absurd i
bind-Agrees (fault out_of_range) f h i = absurd i
bind-Agrees (fault out_of_fuel) f h i = absurd i
bind-Agrees (fault dangling) f h i = absurd i
bind-Agrees (fault overflow) f h i = absurd i

run-Agrees : (es : List Event) (p : PollPoller) → Agrees p → AgreesResult (run es p)
unfolding run
run-Agrees [] p i = i
run-Agrees (e ∷ es) p i = bind-Agrees (step e p) (run es) (run-Agrees es) (step-Agrees e p i)

-- Whatever channels do with a new poller, and whatever polls report, it does not read out of the
-- range of its array nor through a null pointer; and up to a failed assertion, every entry of the
-- array is that of a channel of the map, and the index of every channel of the map is the position
-- of its entry.
pub run-new_poller-Fits :
    (es : List Event) (objects : ℕ → Channel) → AgreesResult (run es (new_poller objects))
run-new_poller-Fits es objects =
    run-Agrees es (new_poller objects)
      (record { owner = λ i f h. absurd (ground arith); placed = λ n a h. absurd (ground arith) })

update_stale :
    (k a : ℕ) (p : PollPoller)
    → p.index a ≡ some k
    → p.channels (fd_of a p) ≡ none
    → update_channel a p ≡ fault assertion
unfolding update_channel update_existing
update_stale k a p indexed gone = rw (indexed, gone) refl

-- An index that is left over in a channel that is out of the map.
abbrev IsStale : ℕ → Checked PollPoller → Type 0
IsStale a (ok p) = ((k : ℕ) × (p.index a ≡ some k)) × (p.channels (fd_of a p) ≡ none)
IsStale a (fault _) = Unit {0}

tell-IsStale :
    (o : Option ℕ) (i a k : ℕ) (p : PollPoller)
    → p.index a ≡ some k
    → p.channels (fd_of a p) ≡ none
    → IsStale a (tell o i p)
tell-IsStale none i a k p indexed gone = tt
tell-IsStale (some b) i a k p indexed gone =
    ((if a == b then i else k, ground (arith, indexed)), gone)

IsStale-pollfds :
    (a : ℕ) (r : Checked PollPoller) (fds : List PollFd)
    → IsStale a r
    → IsStale a (r >>= λ p. ok (record p { pollfds = fds }))
IsStale-pollfds a (ok p) fds h = h
IsStale-pollfds a (fault _) fds h = tt

move_last-IsStale :
    (i a k : ℕ) (p : PollPoller)
    → p.index a ≡ some k
    → p.channels (fd_of a p) ≡ none
    → IsStale a (move_last i p)
unfolding move_last
move_last-IsStale i a k p indexed gone = elim (Option-cases (get_elem? p.pollfds i)) [
  | inl e ↦ rw (e, pollfd_at) tt
  | inr (f, e) ↦
      rw (e, pollfd_at)
        (elim (Option-cases (get_elem? p.pollfds (length p.pollfds - 1))) [
          | inl h ↦ rw (h, pollfd_at) tt
          | inr (g, h) ↦
              rw (h, pollfd_at)
                (IsStale-pollfds a (tell (p.channels (number_of g.fd)) i p)
                  (pop_back (set (set p.pollfds i g) (length p.pollfds - 1) f))
                  (tell-IsStale (p.channels (number_of g.fd)) i a k p indexed gone))
        ])
]

remove_at-IsStale : (i a k : ℕ) (p : PollPoller) → p.index a ≡ some k → IsStale a (remove_at i a p)
unfolding remove_at
remove_at-IsStale i a k p indexed = elim (Bool-cases (ltb i (length p.pollfds))) [
  | inr l ↦ rw l tt
  | inl l ↦ rw l (elim (Option-cases (get_elem? p.pollfds i)) [
    | inl e ↦ rw (e, pollfd_at) tt
    | inr (f, e) ↦
        rw (e, pollfd_at)
          (elim (Bool-cases
            (is_ignored f.fd (fd_of a p) && same_events f.events (p.objects a).events)) [
              | inr h ↦ rw h tt
              | inl h ↦ rw h (elim (Bool-cases (i == length p.pollfds - 1)) [
                | inl q ↦ rw q ((k, indexed), ground arith)
                | inr q ↦ rw q (
                    move_last-IsStale i a k
                      (record p { channels = put_at (fd_of a p) none p.channels }) indexed
                      (ground arith))
              ])
            ])
  ])
]

remove_indexed-IsStale :
    (o : Option ℕ) (a : ℕ) (p : PollPoller) → p.index a ≡ o → IsStale a (remove_indexed o a p)
remove_indexed-IsStale none a p e = tt
remove_indexed-IsStale (some k) a p e = remove_at-IsStale k a k p e

remove_channel-IsStale : (a : ℕ) (p : PollPoller) → IsStale a (remove_channel a p)
unfolding remove_channel
remove_channel-IsStale a p = elim (Bool-cases (maps_to (p.channels (fd_of a p)) a)) [
  | inr e ↦ rw e tt
  | inl e ↦ elim (Bool-cases (is_none_event (p.objects a).events)) [
    | inr h ↦ rw (e, h) tt
    | inl h ↦ rw (e, h) (remove_indexed-IsStale (p.index a) a p refl)
  ]
]

-- A channel that was removed keeps its index: when it is watched again, `updateChannel` takes it for one
-- that the poller has, and an assertion fails.
pub update_channel_after_remove :
    (a : ℕ) (p p' : PollPoller) → remove_channel a p ≡ ok p' → update_channel a p' ≡ fault assertion
update_channel_after_remove a p p' removed =
    let ((k, indexed), gone) = subst (IsStale a) removed (remove_channel-IsStale a p) in
    update_stale k a p' indexed gone
