-- ===== src/Examples/Loops.antt =====
-- The theorems about muduo/net/EventLoopThreadPool.cc and poller/EPollPoller.cc at concrete inputs.
use cs_note.Common.{true, List, [], ◌∷◌}
use cs_note.Tcp.Channel.{new_channel, none_event}
use cs_note.Epoll.Interest.{AgreesResult}
use cs_note.Epoll.Agreement.{
  Event, updates, removes, changes, run, new_poller, run-new_poller-Agrees,
}

-- A channel is added, changed, disabled, and removed.
abbrev life : List Event
life =
    changes 3 (record none_event { pollin = true })
    ∷ updates 3
    ∷ changes 3 (record none_event { pollout = true })
    ∷ updates 3
    ∷ changes 3 none_event
    ∷ updates 3
    ∷ removes 3
    ∷ []

run-new_poller-Agrees_example : AgreesResult (run life (new_poller new_channel))
run-new_poller-Agrees_example = run-new_poller-Agrees life new_channel
