-- ===== src/Examples/Framing.antt =====
-- The theorems about examples/asio/chat/codec.h at concrete inputs.
use cs_note.Common.{ℕ, refl, inl, List, [], ◌∷◌, ◌++◌, arith, be_bytes, from_be}
use cs_note.Tcp.Connection.{Connection, message_callback, call, shutdown}
use cs_note.Codec.{on_message, receive_all}
use cs_note.Codec.Frames.{AreShort, frames}
use cs_note.Codec.Decoding.{call_all, Decoded, on_message-shutdown}
use cs_note.Codec.Chunks.{receive_all-frames}
use cs_note.Examples.{filled, idle}

abbrev bytes : List ℕ
bytes = 104 ∷ 105 ∷ []

-- The callback of the user counts in the connection's record.
abbrev counted : List ℕ → Connection → Connection
counted message conn = call message_callback conn

-- A message in three pieces, the last with the first byte of the next one.
abbrev pieces : List (List ℕ)
pieces = (0 ∷ 0 ∷ []) ∷ (0 ∷ 2 ∷ 104 ∷ []) ∷ (105 ∷ 0 ∷ []) ∷ []

receive_all-frames_example :
    Decoded counted
      (0 ∷ [])
      15
      (call_all counted (bytes ∷ []) (idle []))
      (receive_all counted pieces (filled []) (idle []))
unfolding AreShort be_bytes
receive_all-frames_example =
    receive_all-frames counted pieces (bytes ∷ []) (0 ∷ []) 8 (filled []) (idle [])
      (omega arith, tt) (inl (omega arith)) (omega arith) (inl (omega arith)) refl (omega arith)
      (omega arith) (omega arith)

-- A message, and then a length of -1.
abbrev broken : List ℕ
broken = frames (bytes ∷ []) ++ 255 ∷ 255 ∷ 255 ∷ 255 ∷ []

on_message-shutdown_example :
    Decoded counted
      (255 ∷ 255 ∷ 255 ∷ 255 ∷ [])
      18
      (shutdown (call_all counted (bytes ∷ []) (idle [])))
      (on_message counted 20 (filled broken) (idle []))
unfolding AreShort be_bytes from_be
on_message-shutdown_example =
    on_message-shutdown counted (bytes ∷ []) (255 ∷ 255 ∷ 255 ∷ 255 ∷ []) 20 18 {b = filled broken}
      (idle []) (omega arith, tt) (omega arith) (omega arith) (omega arith) refl (omega arith)
      (omega arith) (omega arith)
