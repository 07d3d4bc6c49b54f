-- ===== src/Poll.antt =====
-- muduo/net/poller/PollPoller.cc and net/Poller.cc: the array for poll(2). Channels are objects in a
-- store, by address, as in Epoll.
pub mod Positions
pub mod Agreement
pub mod Registration
pub mod Filling
pub mod Runs
use cs_note.Common.{
  ℕ, suc, ◌-◌, Bool, true, false, ◌&&◌, ◌||◌, not, Option, none, some, List, [], ◌∷◌, ◌++◌,
  if◌then◌else◌, ◌==◌, ltb, length, get_elem?, set, ℤ, pos, negsuc, Checked, ok, fault,
  out_of_range, dangling, assertion, assert, ◌>>=◌, ◌>>◌,
}
use cs_note.Tcp.Channel.{Channel, Flags, none_event, is_none_event}
use cs_note.Epoll.{put_at, maps_to, is_absent}

-- `struct pollfd`
pub record PollFd : Type 0 where
  pub fd : ℤ
  pub events : Flags
  pub revents : Flags

-- `index` is the field of the channels that the poller uses, none for a negative one.
pub record PollPoller : Type 0 where
  pub pollfds : List PollFd
  pub channels : ℕ → Option ℕ
  pub objects : ℕ → Channel
  pub index : ℕ → Option ℕ

abbrev pub fd_of : ℕ → PollPoller → ℕ
fd_of address p = (p.objects address).fd

abbrev pub set_index : ℕ → ℕ → PollPoller → PollPoller
set_index address i p = record p { index = put_at address (some i) p.index }

-- `hasChannel`
abbrev pub has_channel : ℕ → PollPoller → Bool
has_channel address p = maps_to (p.channels (fd_of address p)) address

-- `-fd-1`, which poll(2) ignores, and back.
abbrev pub is_fd : ℤ → ℕ → Bool
is_fd (pos n) fd = n == fd
is_fd (negsuc n) fd = false

abbrev pub is_ignored : ℤ → ℕ → Bool
is_ignored (pos n) fd = false
is_ignored (negsuc n) fd = n == fd

abbrev pub number_of : ℤ → ℕ
number_of (pos n) = n
number_of (negsuc n) = n

-- `pollfds_[idx]`
abbrev pub pollfd_at : ℕ → List PollFd → Checked PollFd
pollfd_at i fds = elim (get_elem? fds i) [ none ↦ fault out_of_range | some f ↦ ok f ]

abbrev pub pop_back : List PollFd → List PollFd
pop_back [] = []
pop_back (f ∷ []) = []
pop_back (f ∷ g ∷ fs) = f ∷ pop_back (g ∷ fs)

abbrev pub new_entry : ℕ → PollPoller → PollFd
new_entry address p = record {
  fd = pos (fd_of address p);
  events = (p.objects address).events;
  revents = none_event;
}

abbrev pub updated_entry : ℕ → PollPoller → PollFd
updated_entry address p =
    let events = (p.objects address).events in
    record {
      fd = if is_none_event events then negsuc (fd_of address p) else pos (fd_of address p);
      events = events;
      revents = none_event;
    }

-- A new channel, and one that the poller has.
unfoldable pub update_new : ℕ → PollPoller → Checked PollPoller
update_new address p = do
  let fd = fd_of address p
  assert (is_absent (p.channels fd))
  let p' : PollPoller = record p { pollfds = p.pollfds ++ new_entry address p ∷ [] }
  ok (record (set_index address (length p'.pollfds - 1) p') {
    channels = put_at fd (some address) p.channels;
  })

unfoldable pub update_existing : ℕ → ℕ → PollPoller → Checked PollPoller
update_existing i address p = do
  let fd = fd_of address p
  assert (maps_to (p.channels fd) address)
  assert (ltb i (length p.pollfds))
  f ← pollfd_at i p.pollfds
  assert (is_fd f.fd fd || is_ignored f.fd fd)
  ok (record p { pollfds = set p.pollfds i (updated_entry address p) })

abbrev pub update_indexed : Option ℕ → ℕ → PollPoller → Checked PollPoller
update_indexed none address p = update_new address p
update_indexed (some i) address p = update_existing i address p

unfoldable pub update_channel : ℕ → PollPoller → Checked PollPoller
update_channel address p = update_indexed (p.index address) address p

abbrev same : Bool → Bool → Bool
same true b = b
same false b = not b

abbrev pub same_events : Flags → Flags → Bool
same_events e e' =
    same e.pollin e'.pollin
    && same e.pollpri e'.pollpri
    && same e.pollout e'.pollout
    && same e.pollerr e'.pollerr
    && same e.pollhup e'.pollhup
    && same e.pollnval e'.pollnval
    && same e.pollrdhup e'.pollrdhup

-- `channels_[fd]->set_index(idx)`: the pointer is null where the map has no such key.
abbrev pub tell : Option ℕ → ℕ → PollPoller → Checked PollPoller
tell none i p = fault dangling
tell (some b) i p = ok (set_index b i p)

-- The last entry takes the place of the removed one, and its channel is told.
unfoldable pub move_last : ℕ → PollPoller → Checked PollPoller
move_last i p = do
  let last = length p.pollfds - 1
  f ← pollfd_at i p.pollfds
  g ← pollfd_at last p.pollfds
  let swapped = set (set p.pollfds i g) last f
  p' ← tell (p.channels (number_of g.fd)) i p
  ok (record p' { pollfds = pop_back swapped })

unfoldable pub remove_at : ℕ → ℕ → PollPoller → Checked PollPoller
remove_at i address p = do
  let fd = fd_of address p
  assert (ltb i (length p.pollfds))
  f ← pollfd_at i p.pollfds
  assert (is_ignored f.fd fd && same_events f.events (p.objects address).events)
  let p' : PollPoller = record p { channels = put_at fd none p.channels }
  if i == length p.pollfds - 1
      then ok (record p' { pollfds = pop_back p.pollfds })
      else move_last i p'

abbrev pub remove_indexed : Option ℕ → ℕ → PollPoller → Checked PollPoller
remove_indexed none address p = fault assertion
remove_indexed (some i) address p = remove_at i address p

unfoldable pub remove_channel : ℕ → PollPoller → Checked PollPoller
remove_channel address p = do
  assert (maps_to (p.channels (fd_of address p)) address)
  assert (is_none_event (p.objects address).events)
  remove_indexed (p.index address) address p

-- A channel changes its events before it calls `updateChannel`.
abbrev pub set_events : ℕ → Flags → PollPoller → PollPoller
set_events address ev p = record p {
  objects = put_at address (record (p.objects address) { events = ev }) p.objects;
}

abbrev pub has_revents : PollFd → Bool
has_revents f = not (is_none_event f.revents)

abbrev pub find : ℤ → PollPoller → Option ℕ
find (pos n) p = p.channels n
find (negsuc n) p = none

abbrev pub set_revents : ℕ → Flags → PollPoller → PollPoller
set_revents address e p = record p {
  objects = put_at address (record (p.objects address) { revents = e }) p.objects;
}

-- What poll(2) stores in the array.
abbrev pub report : List Flags → List PollFd → List PollFd
report [] fs = fs
report (e ∷ es) [] = []
report (e ∷ es) (f ∷ fs) = record f { revents = e } ∷ report es fs

-- The number of events left, and the rest of the array; the result is the active channels.
unfoldable pub fill_active_channels : ℕ → List PollFd → PollPoller → Checked (List ℕ × PollPoller)
fill_active_channels num_events [] p = ok ([], p)
fill_active_channels num_events (f ∷ fs) p = do
  if num_events == 0
      then ok ([], p)
      else if has_revents f
      then (elim (find f.fd p) [
        | none ↦ fault assertion
        | some a ↦ do
          assert (is_fd f.fd (fd_of a p))
          (active, p') ← fill_active_channels (num_events - 1) fs (set_revents a f.revents p)
          ok (a ∷ active, p')
      ])
      else fill_active_channels num_events fs p

-- `poll`, when poll(2) has stored these events and returned this number.
unfoldable pub poll : ℕ → List Flags → PollPoller → Checked (List ℕ × PollPoller)
poll num_events events p =
    let fds = report events p.pollfds in
    fill_active_channels num_events fds (record p { pollfds = fds })
