-- ===== src/Tcp/Acceptor/Descriptors.antt =====
-- The descriptors of muduo/net/Acceptor.cc.
use cs_note.Common.{
  ℕ, ◌+◌, ◌≡◌, refl, sym, ◌∙◌, subst, Option, none, some, arith, Checked, ok, fault, Bool-cases,
  inl, inr, if◌then◌else◌, ◌==◌, ◌>>=◌,
}
use cs_note.Tcp.Channel.{Channel, disable_all, remove}
use cs_note.Tcp.Connector.Sockets.{count, count-append}
use cs_note.Tcp.Acceptor.{
  Acceptor, new_acceptor, set_new_connection_callback, listen, close, opened_idle, AcceptResult,
  accepted, emfile, other_error, refuse, handle_read, destroy,
}

pub data Reaches : Acceptor → Type 0 where
  made :
      (accept_socket : ℕ) (channel : Channel) (idle_fd : ℕ)
      → Reaches (new_acceptor accept_socket channel idle_fd)
  sets : {a : Acceptor} → Reaches a → Reaches (set_new_connection_callback a)
  listens : {a : Acceptor} → Reaches a → Reaches (listen a)
  reads :
      {a : Acceptor}
      → Reaches a
      → (r : AcceptResult) (refused reopened : Option ℕ)
      → Reaches (handle_read r refused reopened a)

abbrev pub held : ℕ → Option ℕ → ℕ
held x none = 0
held x (some fd) = if x == fd then 1 else 0

-- Every descriptor was closed, handed on or is one of two that are still open, as many times in all as
-- it was opened.
abbrev pub AreAccounted : Option ℕ → Option ℕ → Acceptor → Type 0
AreAccounted socket idle a =
    (x : ℕ)
    → count x a.closed + count x a.handed_on + held x socket + held x idle ≡ count x a.opened

close-AreAccounted :
    (socket idle : Option ℕ) (a : Acceptor)
    → AreAccounted socket idle a
    → AreAccounted socket none (close idle a)
close-AreAccounted socket none a i = i
close-AreAccounted socket (some fd) a i = λ x. omega (arith, i x, count-append x a.closed fd)

close_socket-AreAccounted :
    (fd : ℕ) (a : Acceptor)
    → AreAccounted (some fd) none a
    → AreAccounted none none (close (some fd) a)
close_socket-AreAccounted fd a i = λ x. omega (arith, i x, count-append x a.closed fd)

opened_idle-AreAccounted :
    (socket : Option ℕ) (o : Option ℕ) (a : Acceptor)
    → AreAccounted socket none a
    → AreAccounted socket ((opened_idle o a).idle_fd) (opened_idle o a)
opened_idle-AreAccounted socket none a i = i
opened_idle-AreAccounted socket (some fd) a i = λ x. omega (arith, i x, count-append x a.opened fd)

-- With the spare descriptor given up, refilled, and given up again.
refilled-AreAccounted :
    (socket : Option ℕ) (o : Option ℕ) (a : Acceptor)
    → AreAccounted socket a.idle_fd a
    → let a' = opened_idle o (close a.idle_fd a) in AreAccounted socket a'.idle_fd a'
refilled-AreAccounted socket o a i =
    opened_idle-AreAccounted socket o (close a.idle_fd a) (close-AreAccounted socket a.idle_fd a i)

handle_read-AreAccounted :
    (socket : Option ℕ) (r : AcceptResult) (refused reopened : Option ℕ) (a : Acceptor)
    → AreAccounted socket a.idle_fd a
    → let a' = handle_read r refused reopened a in AreAccounted socket a'.idle_fd a'
unfolding handle_read refuse
handle_read-AreAccounted socket (accepted connfd) refused reopened a i =
    elim (Bool-cases a.has_callback) [
      | inl e ↦ rw e (λ x.
          omega (arith, i x, count-append x a.opened connfd, count-append x a.handed_on connfd))
      | inr e ↦
          rw e (λ x.
            omega (arith, i x, count-append x a.opened connfd, count-append x a.closed connfd))
    ]
handle_read-AreAccounted socket emfile refused reopened a i =
    refilled-AreAccounted socket reopened (opened_idle refused (close a.idle_fd a))
      (refilled-AreAccounted socket refused a i)
handle_read-AreAccounted socket other_error refused reopened a i = i

-- An acceptor, its socket and its spare descriptor open.
abbrev IsAccounted : Acceptor → Type 0
IsAccounted a = AreAccounted (some a.accept_socket) a.idle_fd a

close-accept_socket : (o : Option ℕ) (a : Acceptor) → (close o a).accept_socket ≡ a.accept_socket
close-accept_socket none a = refl
close-accept_socket (some fd) a = refl

refilled-accept_socket :
    (o : Option ℕ) (a : Acceptor)
    → (opened_idle o (close a.idle_fd a)).accept_socket ≡ a.accept_socket
refilled-accept_socket none a = close-accept_socket a.idle_fd a
refilled-accept_socket (some fd) a = close-accept_socket a.idle_fd a

handle_read-accept_socket :
    (r : AcceptResult) (refused reopened : Option ℕ) (a : Acceptor)
    → (handle_read r refused reopened a).accept_socket ≡ a.accept_socket
unfolding handle_read refuse
handle_read-accept_socket (accepted connfd) refused reopened a = elim (Bool-cases a.has_callback) [
  | inl e ↦ rw e refl
  | inr e ↦ rw e refl
]
handle_read-accept_socket emfile refused reopened a =
    refilled-accept_socket reopened (opened_idle refused (close a.idle_fd a))
    ∙ refilled-accept_socket refused a
handle_read-accept_socket other_error refused reopened a = refl

Reaches-IsAccounted : (a : Acceptor) → Reaches a → IsAccounted a
unfolding count
Reaches-IsAccounted _ (made accept_socket channel idle_fd) = λ x. omega arith
Reaches-IsAccounted _ (sets {a} r) = Reaches-IsAccounted a r
Reaches-IsAccounted _ (listens {a} r) = listened a (Reaches-IsAccounted a r)
  where
    listened : (a : Acceptor) → IsAccounted a → IsAccounted (listen a)
    listened a i = unfold listen in i
Reaches-IsAccounted _ (reads {a} r result refused reopened) =
    let a' : Acceptor = handle_read result refused reopened a in
    subst (λ s. AreAccounted (some s) a'.idle_fd a')
      (sym (handle_read-accept_socket result refused reopened a))
      (handle_read-AreAccounted (some a.accept_socket) result refused reopened a
        (Reaches-IsAccounted a r))

-- When a reachable acceptor is destroyed, every descriptor that it ever opened, its listening socket
-- and those of connections that it had no room for included, has been closed or handed to the
-- callback, as many times in all as it was opened.
pub destroy-AreAccounted :
    (a a' : Acceptor) → Reaches a → destroy a ≡ ok a' → AreAccounted none none a'
unfolding destroy
destroy-AreAccounted a a' r e = subst AccountedResult e (removed (remove (disable_all a.channel)))
  where
    AccountedResult : Checked Acceptor → Type 0
    AccountedResult (ok b) = AreAccounted none none b
    AccountedResult (fault f) = Unit {0}

    removed :
        (s : Checked Channel)
        → AccountedResult (
            s >>= λ channel. ok (
              close
                (some a.accept_socket)
                (close a.idle_fd (record a { channel = channel; idle_fd = none }))))
    removed (fault f) = tt
    removed (ok channel) =
        let b : Acceptor = record a { channel = channel; idle_fd = none } in
        close_socket-AreAccounted a.accept_socket (close a.idle_fd b)
          (close-AreAccounted (some a.accept_socket) a.idle_fd b (Reaches-IsAccounted a r))
