-- ===== src/Examples/Topics.antt =====
-- The theorems about examples/hub at concrete inputs.
use cs_note.Common.{◌≡◌, refl, true, false, ◌++◌, ◌==◌, arith, break_at, bytes_eq, codes, ok}
use cs_note.Buffer.{Buffer, contents, find_crlf, retrieve, retrieve_until, search_crlf}
use cs_note.Buffer.Contents.{IsValid}
use cs_note.Hub.{PubSubServer, new_server, get_topic, make_message, do_subscribe, on_connection}
use cs_note.Hub.Sets.{has}
use cs_note.Hub.Messages.{success, parse_line, parse_message, parse_words, perform, on_message}
use cs_note.Hub.Messages.RoundTrip.{parse_message-make_message}
use cs_note.Examples.{filled}
use cs_note.Hub.Reachable.{made, comes, receives, Reaches-audiences}

-- A connection that has subscribed to a topic.
abbrev subscribed : PubSubServer
subscribed = do_subscribe 7 (codes "a") (on_connection 7 true new_server)

-- The command that it subscribed with.
abbrev subscription : Buffer
subscription = filled (codes "sub a\r\n")

on_message-subscription :
    on_message 2 7 subscription (on_connection 7 true new_server)
    ≡ ok (record subscription { reader = 8; writer = 8 }, subscribed)
unfolding on_message parse_message parse_line find_crlf parse_words break_at bytes_eq retrieve_until
    retrieve perform
on_message-subscription = refl

Reaches-audiences_example :
    (has ◌==◌ 7 (get_topic (codes "a") subscribed).audiences
      ≡ has bytes_eq (codes "a") (subscribed.subscriptions 7))
    × (has ◌==◌ 7 (get_topic (codes "a") (on_connection 7 false subscribed)).audiences ≡ false)
Reaches-audiences_example = Reaches-audiences subscribed 7 (codes "a") (
    receives (comes made 7 refl) 2 7 subscription (record subscription { reader = 8; writer = 8 })
      subscribed on_message-subscription)

-- A message, and the beginning of the next one.
abbrev message_buffer : Buffer
message_buffer = filled (make_message (codes "a") (codes "hi") ++ codes "pu")

parse_message-make_message_example :
    (b' : Buffer) × (parse_message message_buffer
      ≡ ok (record {
        result = success;
        cmd = codes "pub";
        topic = codes "a";
        content = codes "hi";
        buffer = b';
      }))
    × IsValid b'
    × (contents b' ≡ codes "pu")
unfolding search_crlf
parse_message-make_message_example =
    parse_message-make_message (codes "a") (codes "hi") (codes "pu") (omega arith) refl refl refl
