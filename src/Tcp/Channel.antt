-- ===== src/Tcp/Channel.antt =====
-- muduo/net/Channel.h and Channel.cc: the events that a descriptor is watched for, and which
-- callbacks the events that happened lead to. A set of poll flags is a record of its bits.
use cs_note.Common.{
  ℕ, Bool, true, false, ◌&&◌, ◌||◌, not, List, [], ◌∷◌, ◌++◌, if◌then◌else◌, Checked, ok, assert,
  ◌>>◌,
}

-- POLLIN, POLLPRI, POLLOUT, POLLERR, POLLHUP, POLLNVAL, POLLRDHUP.
pub record Flags : Type 0 where
  pub pollin : Bool
  pub pollpri : Bool
  pub pollout : Bool
  pub pollerr : Bool
  pub pollhup : Bool
  pub pollnval : Bool
  pub pollrdhup : Bool

-- `kNoneEvent`
abbrev pub none_event : Flags
none_event = record {
  pollin = false;
  pollpri = false;
  pollout = false;
  pollerr = false;
  pollhup = false;
  pollnval = false;
  pollrdhup = false;
}

pub record Channel : Type 0 where
  pub fd : ℕ
  pub events : Flags
  pub revents : Flags
  pub log_hup : Bool
  pub tied : Bool
  pub event_handling : Bool
  pub added_to_loop : Bool
  pub has_read : Bool
  pub has_write : Bool
  pub has_close : Bool
  pub has_error : Bool

abbrev pub new_channel : ℕ → Channel
new_channel fd = record {
  fd = fd;
  events = none_event;
  revents = none_event;
  log_hup = true;
  tied = false;
  event_handling = false;
  added_to_loop = false;
  has_read = false;
  has_write = false;
  has_close = false;
  has_error = false;
}

-- `update()`, without the poller's part of it.
abbrev update : Flags → Channel → Channel
update ev c = record c { events = ev; added_to_loop = true }

-- `kReadEvent` is POLLIN | POLLPRI, `kWriteEvent` is POLLOUT.
unfoldable pub enable_reading : Channel → Channel
enable_reading c = update (record c.events { pollin = true; pollpri = true }) c

unfoldable pub disable_reading : Channel → Channel
disable_reading c = update (record c.events { pollin = false; pollpri = false }) c

unfoldable pub enable_writing : Channel → Channel
enable_writing c = update (record c.events { pollout = true }) c

unfoldable pub disable_writing : Channel → Channel
disable_writing c = update (record c.events { pollout = false }) c

unfoldable pub disable_all : Channel → Channel
disable_all c = update none_event c

abbrev pub is_writing : Channel → Bool
is_writing c = c.events.pollout

abbrev pub is_reading : Channel → Bool
is_reading c = c.events.pollin || c.events.pollpri

abbrev pub is_none_event : Flags → Bool
is_none_event e =
    not (e.pollin || e.pollpri || e.pollout || e.pollerr || e.pollhup || e.pollnval || e.pollrdhup)

-- `remove()`, without the poller's part of it.
unfoldable pub remove : Channel → Checked Channel
remove c = do assert (is_none_event c.events); ok (record c { added_to_loop = false })

pub data Callback : Type 0 where
  on_close on_error on_read on_write : Callback

abbrev pub call_if : Bool → Bool → Callback → List Callback
call_if happened is_set callback = if happened && is_set then callback ∷ [] else []

-- The callbacks in the order of their calls. None of them changes `revents_`.
unfoldable pub handle_event_with_guard : Channel → List Callback
handle_event_with_guard c =
    call_if (r.pollhup && not r.pollin) c.has_close on_close
    ++ (call_if (r.pollerr || r.pollnval) c.has_error on_error
        ++ (call_if (r.pollin || r.pollpri || r.pollrdhup) c.has_read on_read
            ++ call_if r.pollout c.has_write on_write))
  where
    open c use {revents as r}

-- A channel that is tied to an owner handles events while the owner is alive.
unfoldable pub handle_event : Bool → Channel → List Callback
handle_event owner_alive c =
    if c.tied
    then if owner_alive then handle_event_with_guard c else []
    else handle_event_with_guard c
