-- ===== src/Epoll.antt =====
-- muduo/net/poller/EPollPoller.cc: the registration of channels with the kernel. Channels are objects
-- in a store, by address; the calls of `epoll_ctl` are recorded, the most recent one first.
pub mod Interest
pub mod Registration
pub mod Filling
pub mod Agreement
use cs_note.Common.{
  ℕ, Bool, true, false, not, Option, none, some, List, [], ◌∷◌, ◌*◌, if◌then◌else◌, ◌==◌, Checked,
  ok, assert, ◌>>=◌, ◌>>◌,
}
use cs_note.Tcp.Channel.{Channel, Flags, is_none_event}

-- kNew, kAdded, kDeleted.
pub data Index : Type 0 where
  k_new k_added k_deleted : Index

pub data Operation : Type 0 where
  ctl_add ctl_mod ctl_del : Operation

-- A call of `epoll_ctl`, with the address that it passes in `data.ptr`.
pub record Ctl : Type 0 where
  pub operation : Operation
  pub fd : ℕ
  pub events : Flags
  pub address : ℕ

-- `index` is the field of the channels that the poller uses.
pub record EpollPoller : Type 0 where
  pub channels : ℕ → Option ℕ
  pub objects : ℕ → Channel
  pub index : ℕ → Index
  pub calls : List Ctl

abbrev pub put_at {ℓ} : {A : Type ℓ} → ℕ → A → (ℕ → A) → ℕ → A
put_at k v f x = if x == k then v else f x

-- `channels_.find(fd) != channels_.end()`, and `channels_[fd] == channel`.
abbrev pub maps_to : Option ℕ → ℕ → Bool
maps_to none address = false
maps_to (some a) address = a == address

abbrev pub is_absent : Option ℕ → Bool
is_absent none = true
is_absent (some a) = false

abbrev pub fd_of : ℕ → EpollPoller → ℕ
fd_of address p = (p.objects address).fd

abbrev pub set_index : ℕ → Index → EpollPoller → EpollPoller
set_index address i p = record p { index = put_at address i p.index }

-- A channel changes its events before it calls `updateChannel`.
abbrev pub set_events : ℕ → Flags → EpollPoller → EpollPoller
set_events address ev p = record p {
  objects = put_at address (record (p.objects address) { events = ev }) p.objects;
}

abbrev pub update : Operation → ℕ → EpollPoller → EpollPoller
update operation address p = record p {
  calls =
      record {
        operation = operation;
        fd = fd_of address p;
        events = (p.objects address).events;
        address = address;
      }
      ∷ p.calls;
}

-- `updateChannel`, by the index of the channel.
unfoldable pub update_indexed : Index → ℕ → EpollPoller → Checked EpollPoller
update_indexed k_new address p = do
  let fd = fd_of address p
  assert (is_absent (p.channels fd))
  ok (
      update ctl_add address
        (set_index address k_added (record p { channels = put_at fd (some address) p.channels })))
update_indexed k_deleted address p = do
  assert (maps_to (p.channels (fd_of address p)) address)
  ok (update ctl_add address (set_index address k_added p))
update_indexed k_added address p = do
  assert (maps_to (p.channels (fd_of address p)) address)
  ok (
      if is_none_event (p.objects address).events
      then set_index address k_deleted (update ctl_del address p)
      else update ctl_mod address p)

unfoldable pub update_channel : ℕ → EpollPoller → Checked EpollPoller
update_channel address p = update_indexed (p.index address) address p

-- What `epoll_wait` stores for one descriptor.
pub record EpollEvent : Type 0 where
  pub address : ℕ
  pub events : Flags

abbrev pub set_revents : ℕ → Flags → EpollPoller → EpollPoller
set_revents address e p = record p {
  objects = put_at address (record (p.objects address) { revents = e }) p.objects;
}

-- For the events that `epoll_wait` has stored; the result is the active channels.
unfoldable pub fill_active_channels : List EpollEvent → EpollPoller → Checked (List ℕ × EpollPoller)
fill_active_channels [] p = ok ([], p)
fill_active_channels (e ∷ es) p = do
  assert (maps_to (p.channels (fd_of e.address p)) e.address)
  (active, p') ← fill_active_channels es (set_revents e.address e.events p)
  ok (e.address ∷ active, p')

-- The size of the array for events after a poll: a full array is doubled.
abbrev pub next_size : ℕ → ℕ → ℕ
next_size num_events size = if num_events == size then size * 2 else size

abbrev pub is_added : Index → Bool
is_added k_added = true
is_added _ = false

abbrev pub is_new : Index → Bool
is_new k_new = true
is_new _ = false

unfoldable pub remove_channel : ℕ → EpollPoller → Checked EpollPoller
remove_channel address p = do
  let fd = fd_of address p
  let index = p.index address
  assert (maps_to (p.channels fd) address)
  assert (is_none_event (p.objects address).events)
  assert (not (is_new index))
  let p' : EpollPoller = record p { channels = put_at fd none p.channels }
  ok (set_index address k_new (if is_added index then update ctl_del address p' else p'))
