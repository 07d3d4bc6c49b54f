-- ===== src/Examples/Connecting.antt =====
-- The theorems about muduo/net/Connector.cc at concrete states.
use cs_note.Common.{refl, [], ◌∷◌, some, true}
use cs_note.Tcp.Connector.{
  Connector, new_connector, connecting, connecting_on, connect_with, retry, start, start_in_loop,
  in_progress, retryable,
}
use cs_note.Tcp.Connector.Sockets.{Accounted}
use cs_note.Tcp.Connector.Attempts.{Reaches, made, starts, timer_fires, Reaches-Accounted}

abbrev failed_once : Connector
failed_once = record new_connector {
  connect = true;
  retry_delay_ms = 1000;
  closed = 3 ∷ [];
  timers = 500 ∷ [];
}

abbrev waiting : Connector
waiting = record failed_once {
  state = connecting;
  channel = some (record { fd = 4; enabled = true });
}

-- One attempt that fails, and one that is under way when the timer has fired.
waiting-Reaches : Reaches (4 ∷ 3 ∷ []) waiting
unfolding start start_in_loop connect_with retry connecting_on
waiting-Reaches =
    timer_fires {opened = 3 ∷ []} {c = failed_once} 4 in_progress (starts 3 retryable made refl)
      refl

Reaches-Accounted_example : Accounted (4 ∷ 3 ∷ []) waiting
Reaches-Accounted_example = Reaches-Accounted {opened = 4 ∷ 3 ∷ []} {c = waiting} waiting-Reaches
