-- ===== src/Hub/Consistency.antt =====
-- The subscriptions of connections and the audiences of topics in examples/hub/hub.cc.
use cs_note.Common.{
  ℕ, ◌≡◌, refl, sym, ap, ◌∙◌, Bool, true, false, ◌||◌, ◌&&◌, not, List, [], ◌∷◌, if◌then◌else◌,
  Bool-cases, inl, inr, bytes_eq, bytes_eq_iff, ◌==◌, ==_iff,
}
use cs_note.Hub.Sets.{has, insert, erase, has-insert, has-erase}
use cs_note.Hub.{
  Topic, PubSubServer, topic_or_new, get_topic, put_topic, put_subscriptions, send_to, send_if,
  make_message, do_subscribe, do_unsubscribe, send_all, do_publish,
}

-- Each connection is in the audience of a topic exactly if the topic is in its subscriptions.
abbrev pub IsConsistent : PubSubServer → Type 0
IsConsistent s =
    (conn : ℕ) (topic : List ℕ)
    → has ◌==◌ conn (get_topic topic s).audiences ≡ has bytes_eq topic (s.subscriptions conn)

-- What the calls leave: the audiences and the subscriptions where they were changed.
pub record Changes (b : Bool) (conn : ℕ) (topic : List ℕ) (s s' : PubSubServer) : Type 0 where
  pub audiences :
      (c : ℕ) (t : List ℕ)
      → has ◌==◌ c (get_topic t s').audiences
        ≡ (if c == conn && bytes_eq t topic then b else has ◌==◌ c (get_topic t s).audiences)
  pub subscriptions :
      (c : ℕ) (t : List ℕ)
      → has bytes_eq t (s'.subscriptions c)
        ≡ (if c == conn && bytes_eq t topic then b else has bytes_eq t (s.subscriptions c))

pub Changes-IsConsistent :
    (b : Bool) (conn : ℕ) (topic : List ℕ) (s s' : PubSubServer)
    → Changes b conn topic s s'
    → IsConsistent s
    → IsConsistent s'
Changes-IsConsistent b conn topic s s' change i c t =
    change.audiences c t
    ∙ ap (λ x. if c == conn && bytes_eq t topic then b else x) (i c t)
    ∙ sym (change.subscriptions c t)

-- The audience of a topic with one that has been replaced.
replaced-audiences :
    (topic : List ℕ) (v : Topic) (s : PubSubServer) (c : ℕ) (t : List ℕ)
    → has ◌==◌ c (get_topic t (put_topic topic v s)).audiences
      ≡ (if bytes_eq t topic then has ◌==◌ c v.audiences else has ◌==◌ c (get_topic t s).audiences)
replaced-audiences topic v s c t = elim (Bool-cases (bytes_eq t topic)) [
  | inl e ↦ rw e refl
  | inr e ↦ rw e refl
]

-- With `f`, an insertion or an erasure that puts `b` in the place of the key.
replaced-Changes :
    (b : Bool) (conn : ℕ) (topic : List ℕ) (s s' : PubSubServer) (conns : List ℕ)
    (ts : List (List ℕ))
    → ((c : ℕ)
        → has ◌==◌ c conns ≡ (if c == conn then b else has ◌==◌ c (get_topic topic s).audiences))
    → ((t : List ℕ)
        → has bytes_eq t ts
          ≡ (if bytes_eq t topic then b else has bytes_eq t (s.subscriptions conn)))
    → ((c : ℕ) (t : List ℕ)
        → has ◌==◌ c (get_topic t s').audiences
          ≡ (if bytes_eq t topic then has ◌==◌ c conns else has ◌==◌ c (get_topic t s).audiences))
    → ((c : ℕ) → s'.subscriptions c ≡ (if c == conn then ts else s.subscriptions c))
    → Changes b conn topic s s'
replaced-Changes b conn topic s s' conns ts by_conn by_topic after_topic after_conn = record {
  audiences = λ c t. elim (Bool-cases (bytes_eq t topic)) [
    | inl e ↦
        after_topic c t ∙ rw (e, (bytes_eq_iff t topic).0 e) (by_conn c ∙ chosen (c == conn) b _)
    | inr e ↦ after_topic c t ∙ rw e (unchosen (c == conn) b _)
  ];
  subscriptions = λ c t. elim (Bool-cases (c == conn)) [
    | inl e ↦ ap (has bytes_eq t) (after_conn c) ∙ rw (e, (==_iff c conn).0 e) (by_topic t)
    | inr e ↦ ap (has bytes_eq t) (after_conn c) ∙ rw e refl
  ];
}
  where
    chosen : (x b d : Bool) → (if x then b else d) ≡ (if x && true then b else d)
    chosen true b d = refl
    chosen false b d = refl

    unchosen : (x b d : Bool) → d ≡ (if x && false then b else d)
    unchosen true b d = refl
    unchosen false b d = refl

or_if : (x d : Bool) → (x || d) ≡ (if x then true else d)
or_if true d = refl
or_if false d = refl

and_if : (x d : Bool) → (not x && d) ≡ (if x then false else d)
and_if true d = refl
and_if false d = refl

pub do_unsubscribe-Changes :
    (conn : ℕ) (topic : List ℕ) (s : PubSubServer)
    → Changes false conn topic s (do_unsubscribe conn topic s)
unfolding do_unsubscribe
do_unsubscribe-Changes conn topic s =
    let t : Topic = get_topic topic s in
    let conns : List ℕ = erase ◌==◌ conn t.audiences in
    replaced-Changes false conn topic s (do_unsubscribe conn topic s) conns
      (erase bytes_eq topic (s.subscriptions conn))
      (λ c. has-erase ◌==◌ ==_iff c conn t.audiences ∙ and_if (c == conn) _)
      (λ x.
        has-erase bytes_eq bytes_eq_iff x topic (s.subscriptions conn)
        ∙ and_if (bytes_eq x topic) _)
      (λ c x. replaced-audiences topic (record t { audiences = conns }) s c x) (λ c. refl)

-- A message sent changes neither.
sent-Changes :
    (b : Bool) (conn : ℕ) (topic : List ℕ) (s s' : PubSubServer) (p : Bool) (c : ℕ) (m : List ℕ)
    → Changes b conn topic s s'
    → Changes b conn topic s (send_if p c m s')
sent-Changes b conn topic s s' true c m h = record {
  audiences = h.audiences;
  subscriptions = h.subscriptions;
}
sent-Changes b conn topic s s' false c m h = h

pub do_subscribe-Changes :
    (conn : ℕ) (topic : List ℕ) (s : PubSubServer)
    → Changes true conn topic s (do_subscribe conn topic s)
unfolding do_subscribe
do_subscribe-Changes conn topic s =
    let t : Topic = get_topic topic s in
    let conns : List ℕ = insert ◌==◌ conn t.audiences in
    let ts : List (List ℕ) = insert bytes_eq topic (s.subscriptions conn) in
    let s1 : PubSubServer =
      put_topic topic (record t { audiences = conns }) (put_subscriptions conn ts s) in
    sent-Changes true conn topic s s1 t.published conn (make_message topic t.content) (
      replaced-Changes true conn topic s s1 conns ts
        (λ c. has-insert ◌==◌ ==_iff c conn t.audiences ∙ or_if (c == conn) _)
        (λ x.
          has-insert bytes_eq bytes_eq_iff x topic (s.subscriptions conn)
          ∙ or_if (bytes_eq x topic) _)
        (λ c x. replaced-audiences topic (record t { audiences = conns }) s c x) (λ c. refl))

-- Publishing changes neither.
send_all-audiences :
    (conns : List ℕ) (m : List ℕ) (s : PubSubServer)
    → ((send_all conns m s).topics ≡ s.topics)
      × ((send_all conns m s).subscriptions ≡ s.subscriptions)
send_all-audiences [] m s = (refl, refl)
send_all-audiences (c ∷ cs) m s = send_all-audiences cs m (send_to c m s)

same_audience :
    (topic : List ℕ) (v : Topic) (s : PubSubServer) (c : ℕ) (t : List ℕ)
    → v.audiences ≡ (get_topic topic s).audiences
    → has ◌==◌ c (get_topic t (put_topic topic v s)).audiences
      ≡ has ◌==◌ c (get_topic t s).audiences
same_audience topic v s c t same = elim (Bool-cases (bytes_eq t topic)) [
  | inl e ↦ rw (e, (bytes_eq_iff t topic).0 e) (ap (has ◌==◌ c) same)
  | inr e ↦ rw e refl
]

pub do_publish-IsConsistent :
    (topic content : List ℕ) (s : PubSubServer)
    → IsConsistent s
    → IsConsistent (do_publish topic content s)
unfolding do_publish
do_publish-IsConsistent topic content s i c t =
    let v : Topic = record (get_topic topic s) { content = content; published = true } in
    let (topics, subscriptions) =
      send_all-audiences v.audiences (make_message topic content) (put_topic topic v s) in
    ap (λ f. has ◌==◌ c (topic_or_new (f t)).audiences) topics
    ∙ same_audience topic v s c t refl
    ∙ i c t
    ∙ sym (ap (λ f. has bytes_eq t (f c)) subscriptions)
