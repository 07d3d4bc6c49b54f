-- ===== src/Hub/Reachable.antt =====
-- The server of examples/hub/hub.cc over time.
use cs_note.Common.{
  ℕ, zero, suc, ◌≡◌, refl, Checked, ok, fault, ◌>>=◌, codes, ap, ◌∙◌, subst, Bool, true, false,
  ◌||◌, ◌&&◌, List, [], ◌∷◌, if◌then◌else◌, Bool-cases, inl, inr, arith, bytes_eq, ◌==◌, ==_iff,
}
use cs_note.Hub.Sets.{has}
use cs_note.Hub.{
  PubSubServer, new_server, get_topic, do_subscribe, do_unsubscribe, do_publish, unsubscribe_all,
  on_connection,
}
use cs_note.Hub.Messages.{
  ParseResult, error, success, unfinished, Parsed, parse_message, perform, after_command,
  after_parse, on_message,
}
use cs_note.Buffer.{Buffer}
use cs_note.Hub.Consistency.{
  IsConsistent, Changes-IsConsistent, do_unsubscribe-Changes, do_subscribe-Changes,
  do_publish-IsConsistent,
}

unsubscribe_all-IsConsistent :
    (conn : ℕ) (ts : List (List ℕ)) (s : PubSubServer)
    → IsConsistent s
    → IsConsistent (unsubscribe_all conn ts s)
unsubscribe_all-IsConsistent conn [] s i = i
unsubscribe_all-IsConsistent conn (t ∷ ts) s i =
    unsubscribe_all-IsConsistent conn ts (do_unsubscribe conn t s) (
      Changes-IsConsistent false conn t s (do_unsubscribe conn t s)
        (do_unsubscribe-Changes conn t s) i)

-- What is left of a connection's subscriptions are those that were not in the list.
unsubscribe_all-subscriptions :
    (conn : ℕ) (ts : List (List ℕ)) (s : PubSubServer) (t : List ℕ)
    → (has bytes_eq t (s.subscriptions conn) ≡ true → has bytes_eq t ts ≡ true)
    → has bytes_eq t ((unsubscribe_all conn ts s).subscriptions conn) ≡ false
unfolding has
unsubscribe_all-subscriptions conn [] s t h =
    elim (Bool-cases (has bytes_eq t (s.subscriptions conn))) [
      | inl e ↦ absurd (ground (arith, h e))
      | inr e ↦ e
    ]
unsubscribe_all-subscriptions conn (x ∷ xs) s t h =
    unsubscribe_all-subscriptions conn xs (do_unsubscribe conn x s) t (λ still.
      left (bytes_eq t x) _ _ ((do_unsubscribe-Changes conn x s).subscriptions conn t) still h)
  where
    same : (conn == conn) ≡ true
    same = (==_iff conn conn).1 refl

    left :
        (b : Bool) (before after : Bool)
        → after ≡ (if (conn == conn) && b then false else before)
        → after ≡ true
        → (before ≡ true → (b || has bytes_eq t xs) ≡ true)
        → has bytes_eq t xs ≡ true
    left true before after e still h = absurd (ground (arith, e, still, same))
    left false before after e still h = h (ground (arith, e, still))

perform-IsConsistent :
    (conn : ℕ) (p : Parsed) (s : PubSubServer) → IsConsistent s → IsConsistent (perform conn p s).1
unfolding perform
perform-IsConsistent conn p s i = elim (Bool-cases (bytes_eq p.cmd (codes "pub"))) [
  | inl e ↦ rw e (do_publish-IsConsistent p.topic p.content s i)
  | inr e ↦ elim (Bool-cases (bytes_eq p.cmd (codes "sub"))) [
    | inl f ↦
        rw (e, f)
          (Changes-IsConsistent true conn p.topic s (do_subscribe conn p.topic s)
            (do_subscribe-Changes conn p.topic s) i)
    | inr f ↦ elim (Bool-cases (bytes_eq p.cmd (codes "unsub"))) [
      | inl g ↦
          rw (e, f, g)
            (Changes-IsConsistent false conn p.topic s (do_unsubscribe conn p.topic s)
              (do_unsubscribe-Changes conn p.topic s) i)
      | inr g ↦ rw (e, f, g) i
    ]
  ]
]

-- What a call returned is consistent.
abbrev ReturnsConsistent : Checked (Buffer × PubSubServer) → Type 0
ReturnsConsistent (ok r) = IsConsistent r.1
ReturnsConsistent (fault e) = Unit {0}

after_command-IsConsistent :
    (loop : Buffer → PubSubServer → Checked (Buffer × PubSubServer)) (b : Buffer)
    (x : Bool × PubSubServer)
    → ((b' : Buffer) (s' : PubSubServer) → IsConsistent s' → ReturnsConsistent (loop b' s'))
    → IsConsistent x.1
    → ReturnsConsistent (after_command loop b x)
after_command-IsConsistent loop b (true, s) all i = all b s i
after_command-IsConsistent loop b (false, s) all i = i

after_parse-IsConsistent :
    (loop : Buffer → PubSubServer → Checked (Buffer × PubSubServer)) (conn : ℕ) (r : ParseResult)
    (p : Parsed) (s : PubSubServer)
    → ((b : Buffer) (s' : PubSubServer) → IsConsistent s' → ReturnsConsistent (loop b s'))
    → IsConsistent s
    → ReturnsConsistent (after_parse loop conn r p s)
after_parse-IsConsistent loop conn error p s all i = i
after_parse-IsConsistent loop conn unfinished p s all i = i
after_parse-IsConsistent loop conn success p s all i =
    after_command-IsConsistent loop p.buffer (perform conn p s) all
      (perform-IsConsistent conn p s i)

bind-IsConsistent :
    (r : Checked Parsed) (f : Parsed → Checked (Buffer × PubSubServer))
    → ((p : Parsed) → ReturnsConsistent (f p))
    → ReturnsConsistent (r >>= f)
bind-IsConsistent (ok p) f h = h p
bind-IsConsistent (fault e) f h = tt

on_message-IsConsistent :
    (fuel conn : ℕ) (b : Buffer) (s : PubSubServer)
    → IsConsistent s
    → ReturnsConsistent (on_message fuel conn b s)
unfolding on_message
on_message-IsConsistent zero conn b s i = tt
on_message-IsConsistent (suc fuel) conn b s i =
    bind-IsConsistent (parse_message b) (λ p. after_parse (on_message fuel conn) conn p.result p s)
      (λ p.
        after_parse-IsConsistent (on_message fuel conn) conn p.result p s
          (on_message-IsConsistent fuel conn) i)

-- The server over time: connections come and go, and the server works through what a buffer holds, as
-- long as no assertion of the buffer fails; it publishes by itself, too. A connection that comes has no
-- subscriptions yet.
pub data Reaches : PubSubServer → Type 0 where
  made : Reaches new_server
  comes :
      {s : PubSubServer}
      → Reaches s
      → (conn : ℕ) → s.subscriptions conn ≡ []
      → Reaches (on_connection conn true s)
  goes : {s : PubSubServer} → Reaches s → (conn : ℕ) → Reaches (on_connection conn false s)
  receives :
      {s : PubSubServer}
      → Reaches s
      → (fuel conn : ℕ) → (b b' : Buffer) (s' : PubSubServer)
      → on_message fuel conn b s ≡ ok (b', s')
      → Reaches s'
  publishes :
      {s : PubSubServer}
      → Reaches s
      → (topic content : List ℕ) → Reaches (do_publish topic content s)

came-IsConsistent :
    (conn : ℕ) (s : PubSubServer)
    → s.subscriptions conn ≡ []
    → IsConsistent s
    → IsConsistent (on_connection conn true s)
unfolding on_connection
came-IsConsistent conn s empty i c t = elim (Bool-cases (c == conn)) [
  | inl e ↦ rw e (i c t ∙ ap (has bytes_eq t) (ap s.subscriptions ((==_iff c conn).0 e) ∙ empty))
  | inr e ↦ rw e (i c t)
]

went-IsConsistent :
    (conn : ℕ) (s : PubSubServer) → IsConsistent s → IsConsistent (on_connection conn false s)
unfolding on_connection
went-IsConsistent conn s i = unsubscribe_all-IsConsistent conn (s.subscriptions conn) s i

pub Reaches-IsConsistent : (s : PubSubServer) → Reaches s → IsConsistent s
Reaches-IsConsistent _ made = λ c t. unfold has in refl
Reaches-IsConsistent _ (comes {s} r conn empty) =
    came-IsConsistent conn s empty (Reaches-IsConsistent s r)
Reaches-IsConsistent _ (goes {s} r conn) = went-IsConsistent conn s (Reaches-IsConsistent s r)
Reaches-IsConsistent _ (receives {s} r fuel conn b b' s' e) =
    subst ReturnsConsistent e (on_message-IsConsistent fuel conn b s (Reaches-IsConsistent s r))
Reaches-IsConsistent _ (publishes {s} r topic content) =
    do_publish-IsConsistent topic content s (Reaches-IsConsistent s r)

went-subscriptions :
    (conn : ℕ) (s : PubSubServer) (t : List ℕ)
    → has bytes_eq t ((on_connection conn false s).subscriptions conn) ≡ false
unfolding on_connection
went-subscriptions conn s t = unsubscribe_all-subscriptions conn (s.subscriptions conn) s t (λ h. h)

-- In every reachable server each connection is in the audience of a topic exactly if the topic is in
-- its subscriptions; and when a connection goes down, no topic has it in its audience any more.
pub Reaches-audiences :
    (s : PubSubServer) (conn : ℕ) (topic : List ℕ)
    → Reaches s
    → (has ◌==◌ conn (get_topic topic s).audiences ≡ has bytes_eq topic (s.subscriptions conn))
      × (has ◌==◌ conn (get_topic topic (on_connection conn false s)).audiences ≡ false)
Reaches-audiences s conn topic r = (
  Reaches-IsConsistent s r conn topic,
  went-IsConsistent conn s (Reaches-IsConsistent s r) conn topic ∙ went-subscriptions conn s topic,
)
