-- ===== src/Examples/Polling.antt =====
-- The theorems about muduo/net/poller/PollPoller.cc at concrete inputs.
use cs_note.Common.{◌≡◌, refl, true, none, some, List, [], ◌∷◌, negsuc, ok}
use cs_note.Tcp.Channel.{new_channel, none_event}
use cs_note.Epoll.{put_at}
use cs_note.Poll.{PollPoller, remove_channel, remove_at}
use cs_note.Poll.Registration.{AgreesResult}
use cs_note.Poll.Runs.{
  Event, updates, removes, changes, polls, run, new_poller, run-new_poller-Fits,
}

-- Two channels are added, one has something to read, and the first is removed.
abbrev moves : List Event
moves =
    changes 3 (record none_event { pollin = true })
    ∷ updates 3
    ∷ changes 4 (record none_event { pollin = true })
    ∷ updates 4
    ∷ polls 1 (record none_event { pollin = true } ∷ [])
    ∷ changes 3 none_event
    ∷ updates 3
    ∷ removes 3
    ∷ []

run-new_poller-Fits_example : AgreesResult (run moves (new_poller new_channel))
run-new_poller-Fits_example = run-new_poller-Fits moves new_channel

-- A channel with no events is in the array, and is removed.
abbrev ignored : PollPoller
ignored = record (new_poller new_channel) {
  pollfds = record { fd = negsuc 3; events = none_event; revents = none_event } ∷ [];
  channels = put_at 3 (some 3) (λ fd. none);
  index = put_at 3 (some 0) (λ address. none);
}

abbrev removed : PollPoller
removed = record ignored { pollfds = []; channels = put_at 3 none ignored.channels }

ignored-removed : remove_channel 3 ignored ≡ ok removed
unfolding remove_channel remove_at
ignored-removed = refl
