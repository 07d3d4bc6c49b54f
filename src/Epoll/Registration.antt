-- ===== src/Epoll/Registration.antt =====
-- `updateChannel` and `removeChannel` of muduo/net/poller/EPollPoller.cc, one at a time.
use cs_note.Common.{
  ℕ, ◌≡◌, ◌≢◌, refl, sym, ap, ◌∙◌, subst, true, not, Option, none, some, if◌then◌else◌, ◌==◌,
  ==_iff, arith, ok, assert, ◌>>◌, Bool-cases, inl, inr,
}
use cs_note.Tcp.Channel.{Flags, is_none_event}
use cs_note.Epoll.{
  Index, k_new, k_added, k_deleted, ctl_del, EpollPoller, put_at, maps_to, is_absent, fd_of,
  set_index, set_events, update, update_indexed, update_channel, is_added, is_new, remove_channel,
}
use cs_note.Epoll.Interest.{
  interest, AreAllowed, Says, Says-new, Says-kept, Says-deleted, Says-changed, Says-removed,
  Says-forgotten, some_known, Agrees, AgreesResult,
}

is_absent→ : (o : Option ℕ) → is_absent o ≡ true → o ≡ none
is_absent→ none h = refl
is_absent→ (some a) h = absurd (ground arith)

update_new-Agrees :
    (address : ℕ) (p : EpollPoller)
    → p.index address ≡ k_new
    → Agrees p
    → AgreesResult (update_indexed k_new address p)
unfolding update_indexed interest AreAllowed
update_new-Agrees address p e a = elim (Bool-cases (is_absent (p.channels (fd_of address p)))) [
  | inr f ↦ rw f tt
  | inl f ↦
      let free : p.channels (fd_of address p) ≡ none =
        is_absent→ (p.channels (fd_of address p)) f in
      rw f (record {
        indices = λ other.
            Says-new address other (fd_of address p) (fd_of other p) (λ q. ap (λ z. fd_of z p) q)
              (p.channels (fd_of other p)) (interest p.calls (fd_of other p))
              (p.objects address).events (p.index other)
              (λ q. subst (λ z. p.channels z ≡ none) (sym q) free) (a.indices other);
        absent = λ fd gone. ground (arith, a.absent fd, gone);
        own = λ fd other m. ground (arith, a.own fd other, m);
        allowed = (a.absent (fd_of address p) free, a.allowed);
      })
]

maps_to→ : (o : Option ℕ) (address : ℕ) → maps_to o address ≡ true → o ≡ some address
maps_to→ none address h = absurd (ground arith)
maps_to→ (some a) address h = ap some ((==_iff a address).0 h)

update_deleted-Agrees :
    (address : ℕ) (p : EpollPoller)
    → p.index address ≡ k_deleted
    → Agrees p
    → AgreesResult (update_indexed k_deleted address p)
unfolding update_indexed interest AreAllowed
update_deleted-Agrees address p e a =
    elim (Bool-cases (maps_to (p.channels (fd_of address p)) address)) [
      | inr f ↦ rw f tt
      | inl f ↦
          let mine : p.channels (fd_of address p) ≡ some address =
            maps_to→ (p.channels (fd_of address p)) address f in
          let says : Says k_deleted address (p.channels (fd_of address p))
              (interest p.calls (fd_of address p)) =
            subst
              (λ i.
                Says i address (p.channels (fd_of address p)) (interest p.calls (fd_of address p)))
              e (a.indices address) in
          rw f (record {
            indices = λ other.
                Says-kept address other (fd_of address p) (fd_of other p)
                  (λ q. ap (λ z. fd_of z p) q) (p.channels (fd_of other p))
                  (interest p.calls (fd_of other p)) (p.objects address).events (p.index other)
                  (λ q. subst (λ z. p.channels z ≡ some address) (sym q) mine) (a.indices other);
            absent = λ fd gone. ground (arith, a.absent fd, gone, mine);
            own = a.own;
            allowed = (says.1, a.allowed);
          })
    ]

update_added-Agrees :
    (address : ℕ) (p : EpollPoller)
    → p.index address ≡ k_added
    → Agrees p
    → AgreesResult (update_indexed k_added address p)
unfolding update_indexed interest AreAllowed
update_added-Agrees address p e a =
    elim (Bool-cases (maps_to (p.channels (fd_of address p)) address)) [
      | inr f ↦ rw f tt
      | inl f ↦
          let mine : p.channels (fd_of address p) ≡ some address =
            maps_to→ (p.channels (fd_of address p)) address f in
          let says : Says k_added address (p.channels (fd_of address p))
              (interest p.calls (fd_of address p)) =
            subst
              (λ i.
                Says i address (p.channels (fd_of address p)) (interest p.calls (fd_of address p)))
              e (a.indices address) in
          let known : interest p.calls (fd_of address p) ≢ none =
            some_known (interest p.calls (fd_of address p)) (address, says.1.0) says.1.1 in
          elim (Bool-cases (is_none_event (p.objects address).events)) [
            | inl g ↦
                rw (f, g)
                  (record {
                    indices = λ other.
                        Says-deleted address other (fd_of address p) (fd_of other p)
                          (λ q. ap (λ z. fd_of z p) q) (p.channels (fd_of other p))
                          (interest p.calls (fd_of other p)) (p.objects address).events
                          (p.index other)
                          (λ q. subst (λ z. p.channels z ≡ some address) (sym q) mine)
                          (a.indices other);
                    absent = λ fd gone. ground (arith, a.absent fd, gone, mine);
                    own = a.own;
                    allowed = (known, a.allowed);
                  })
            | inr g ↦
                rw (f, g)
                  (record {
                    indices = λ other.
                        Says-changed address other (fd_of address p) (fd_of other p)
                          (λ q. ap (λ z. fd_of z p) q) (p.channels (fd_of other p))
                          (interest p.calls (fd_of other p)) (p.objects address).events
                          (p.index other)
                          (λ q. subst (λ z. p.channels z ≡ some address) (sym q) mine)
                          (λ q. ap (λ z. is_added (p.index z)) q ∙ ap is_added e) (a.indices other);
                    absent = λ fd gone. ground (arith, a.absent fd, gone, mine);
                    own = a.own;
                    allowed = (known, a.allowed);
                  })
          ]
    ]

pub update_channel-Agrees :
    (address : ℕ) (p : EpollPoller) → Agrees p → AgreesResult (update_channel address p)
unfolding update_channel
update_channel-Agrees address p a = by_index (p.index address) refl
  where
    by_index : (i : Index) → p.index address ≡ i → AgreesResult (update_indexed i address p)
    by_index k_new e = update_new-Agrees address p e a
    by_index k_added e = update_added-Agrees address p e a
    by_index k_deleted e = update_deleted-Agrees address p e a

fd_of-set_events :
    (address : ℕ) (ev : Flags) (p : EpollPoller) (other : ℕ)
    → fd_of other (set_events address ev p) ≡ fd_of other p
fd_of-set_events address ev p other = ground arith

pub set_events-Agrees :
    (address : ℕ) (ev : Flags) (p : EpollPoller) → Agrees p → Agrees (set_events address ev p)
set_events-Agrees address ev p a = record {
  indices = λ other.
      subst (λ fd. Says (p.index other) other (p.channels fd) (interest p.calls fd))
        (sym (fd_of-set_events address ev p other)) (a.indices other);
  absent = a.absent;
  own = λ fd other m. fd_of-set_events address ev p other ∙ a.own fd other m;
  allowed = a.allowed;
}

remove_added-Agrees :
    (address : ℕ) (p : EpollPoller)
    → p.index address ≡ k_added
    → p.channels (fd_of address p) ≡ some address
    → Agrees p
    → Agrees (
        set_index address k_new (
          update ctl_del address
            (record p { channels = put_at (fd_of address p) none p.channels })))
unfolding interest AreAllowed
remove_added-Agrees address p e mine a =
    let says : Says k_added address (p.channels (fd_of address p))
        (interest p.calls (fd_of address p)) =
      subst
        (λ i. Says i address (p.channels (fd_of address p)) (interest p.calls (fd_of address p))) e
        (a.indices address) in
    record {
      indices = λ other.
          Says-removed address other (fd_of address p) (fd_of other p) (λ q. ap (λ z. fd_of z p) q)
            (p.channels (fd_of other p)) (interest p.calls (fd_of other p))
            (p.objects address).events (p.index other)
            (λ q. subst (λ z. p.channels z ≡ some address) (sym q) mine) (a.indices other);
      absent = λ fd gone. ground (arith, a.absent fd, gone);
      own = λ fd other m. ground (arith, a.own fd other, m);
      allowed =
          (some_known (interest p.calls (fd_of address p)) (address, says.1.0) says.1.1, a.allowed);
    }

remove_deleted-Agrees :
    (address : ℕ) (p : EpollPoller)
    → p.index address ≡ k_deleted
    → p.channels (fd_of address p) ≡ some address
    → Agrees p
    → Agrees
        (set_index address k_new (record p { channels = put_at (fd_of address p) none p.channels }))
remove_deleted-Agrees address p e mine a =
    let says : Says k_deleted address (p.channels (fd_of address p))
        (interest p.calls (fd_of address p)) =
      subst
        (λ i. Says i address (p.channels (fd_of address p)) (interest p.calls (fd_of address p))) e
        (a.indices address) in
    record {
      indices = λ other.
          Says-forgotten address other (fd_of address p) (fd_of other p)
            (λ q. ap (λ z. fd_of z p) q) (p.channels (fd_of other p))
            (interest p.calls (fd_of other p)) (p.objects address).events (p.index other)
            (λ q. subst (λ z. p.channels z ≡ some address) (sym q) mine) (a.indices other);
      absent = λ fd gone. elim (Bool-cases (fd == fd_of address p)) [
        | inl q ↦ rw ((==_iff fd (fd_of address p)).0 q) says.1
        | inr q ↦ a.absent fd (ground (arith, gone, q))
      ];
      own = λ fd other m. ground (arith, a.own fd other, m);
      allowed = a.allowed;
    }

pub remove_channel-Agrees :
    (address : ℕ) (p : EpollPoller) → Agrees p → AgreesResult (remove_channel address p)
unfolding remove_channel
remove_channel-Agrees address p a =
    elim (Bool-cases (maps_to (p.channels (fd_of address p)) address)) [
      | inr f ↦ rw f tt
      | inl f ↦ elim (Bool-cases (is_none_event (p.objects address).events)) [
        | inr g ↦ rw (f, g) tt
        | inl g ↦
            rw (f, g)
              (by_index (p.index address) refl (maps_to→ (p.channels (fd_of address p)) address f))
      ]
    ]
  where
    by_index :
        (i : Index)
        → p.index address ≡ i
        → p.channels (fd_of address p) ≡ some address
        → AgreesResult (do
          assert (not (is_new i))
          let p' : EpollPoller = record p { channels = put_at (fd_of address p) none p.channels }
          ok (set_index address k_new (if is_added i then update ctl_del address p' else p')))
    by_index k_new e mine = tt
    by_index k_added e mine = remove_added-Agrees address p e mine a
    by_index k_deleted e mine = remove_deleted-Agrees address p e mine a
