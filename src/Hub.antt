-- ===== src/Hub.antt =====
-- examples/hub/codec.cc and hub.cc (under Linux多线程服务端编程/muduo): a server that hands what is published
-- on a topic to the connections that subscribe to it. Connections are numbers; `sent` records the messages
-- and `shut` the shutdowns in order. A `std::set` is the list of its elements; the map of the topics is
-- a function. Of the time of a topic's last message only counts whether there is one.
pub mod Sets
pub mod Consistency
pub mod Reachable
pub mod Messages
use cs_note.Common.{
  ℕ, Bool, true, false, Option, none, some, List, [], ◌∷◌, ◌++◌, if◌then◌else◌, ◌==◌, bytes_eq,
  codes,
}
use cs_note.Hub.Sets.{insert, erase}

pub record Topic : Type 0 where
  pub content : List ℕ
  pub published : Bool
  pub audiences : List ℕ

abbrev pub new_topic : Topic
new_topic = record { content = []; published = false; audiences = [] }

pub record PubSubServer : Type 0 where
  pub subscriptions : ℕ → List (List ℕ)
  pub topics : List ℕ → Option Topic
  pub sent : List (ℕ × List ℕ)
  pub shut : List ℕ

abbrev pub new_server : PubSubServer
new_server = record { subscriptions = λ c. []; topics = λ t. none; sent = []; shut = [] }

abbrev pub make_message : List ℕ → List ℕ → List ℕ
make_message topic content = codes "pub " ++ (topic ++ (13 ∷ 10 ∷ (content ++ (13 ∷ 10 ∷ []))))

-- `getTopic`, of what the map has.
abbrev pub topic_or_new : Option Topic → Topic
topic_or_new none = new_topic
topic_or_new (some t) = t

abbrev pub get_topic : List ℕ → PubSubServer → Topic
get_topic topic s = topic_or_new (s.topics topic)

abbrev pub put_topic : List ℕ → Topic → PubSubServer → PubSubServer
put_topic topic t s = record s { topics = λ x. if bytes_eq x topic then some t else s.topics x }

abbrev pub put_subscriptions : ℕ → List (List ℕ) → PubSubServer → PubSubServer
put_subscriptions conn ts s = record s {
  subscriptions = λ c. if c == conn then ts else s.subscriptions c;
}

abbrev pub send_to : ℕ → List ℕ → PubSubServer → PubSubServer
send_to conn message s = record s { sent = s.sent ++ (conn, message) ∷ [] }

abbrev pub send_if : Bool → ℕ → List ℕ → PubSubServer → PubSubServer
send_if true conn message s = send_to conn message s
send_if false conn message s = s

-- `Topic::add`: a new subscriber gets the last message.
abbrev pub add : List ℕ → ℕ → PubSubServer → PubSubServer
add topic conn s =
    let t = get_topic topic s in
    let s' = put_topic topic (record t { audiences = insert ◌==◌ conn t.audiences }) s in
    send_if t.published conn (make_message topic t.content) s'

unfoldable pub do_subscribe : ℕ → List ℕ → PubSubServer → PubSubServer
do_subscribe conn topic s =
    add topic conn (put_subscriptions conn (insert bytes_eq topic (s.subscriptions conn)) s)

unfoldable pub do_unsubscribe : ℕ → List ℕ → PubSubServer → PubSubServer
do_unsubscribe conn topic s =
    let t = get_topic topic s in
    let s' = put_topic topic (record t { audiences = erase ◌==◌ conn t.audiences }) s in
    put_subscriptions conn (erase bytes_eq topic (s'.subscriptions conn)) s'

-- The loop of `publish`.
abbrev pub send_all : List ℕ → List ℕ → PubSubServer → PubSubServer
send_all [] message s = s
send_all (conn ∷ conns) message s = send_all conns message (send_to conn message s)

unfoldable pub do_publish : List ℕ → List ℕ → PubSubServer → PubSubServer
do_publish topic content s =
    let t : Topic = record (get_topic topic s) { content = content; published = true } in
    send_all t.audiences (make_message topic content) (put_topic topic t s)

-- The loop of `onConnection` over the subscriptions of a connection that is down.
abbrev pub unsubscribe_all : ℕ → List (List ℕ) → PubSubServer → PubSubServer
unsubscribe_all conn [] s = s
unsubscribe_all conn (t ∷ ts) s = unsubscribe_all conn ts (do_unsubscribe conn t s)

unfoldable pub on_connection : ℕ → Bool → PubSubServer → PubSubServer
on_connection conn true s = put_subscriptions conn [] s
on_connection conn false s = unsubscribe_all conn (s.subscriptions conn) s
