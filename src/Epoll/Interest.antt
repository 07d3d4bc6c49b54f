-- ===== src/Epoll/Interest.antt =====
-- The calls of `epoll_ctl` that muduo/net/poller/EPollPoller.cc makes, against epoll_ctl(2): a
-- descriptor is added only when it is not in the interest list, and changed or deleted only when it is.
use cs_note.Common.{
  ℕ, ◌≡◌, ◌≢◌, sym, ap, ◌∙◌, true, false, Option, none, some, List, [], ◌∷◌, if◌then◌else◌, ◌==◌,
  ==_iff, arith, Checked, ok, fault, Bool-cases, inl, inr,
}
use cs_note.Tcp.Channel.{Flags}
use cs_note.Epoll.{
  Index, k_new, k_added, k_deleted, Operation, ctl_add, ctl_mod, ctl_del, Ctl, EpollPoller, maps_to,
  fd_of, is_added,
}

-- What a call leaves of a descriptor in the interest list: the address and the events.
abbrev pub leaves : Ctl → Option (ℕ × Flags)
leaves c = elim c.operation [
  | ctl_add ↦ some (c.address, c.events)
  | ctl_mod ↦ some (c.address, c.events)
  | ctl_del ↦ none
]

-- The interest list after some calls, the most recent one first.
unfoldable pub interest : List Ctl → ℕ → Option (ℕ × Flags)
interest [] fd = none
interest (c ∷ cs) fd = let before = interest cs fd in if fd == c.fd then leaves c else before

-- epoll_ctl(2) fails with EEXIST or ENOENT otherwise.
abbrev pub IsAllowed : Operation → Option (ℕ × Flags) → Type 0
IsAllowed ctl_add o = o ≡ none
IsAllowed _ o = o ≢ none

unfoldable pub AreAllowed : List Ctl → Type 0
AreAllowed [] = Unit {0}
AreAllowed (c ∷ cs) = IsAllowed c.operation (interest cs c.fd) × AreAllowed cs

-- What the index of a channel says of the map's entry and the kernel's entry for its descriptor.
abbrev pub Says : Index → ℕ → Option ℕ → Option (ℕ × Flags) → Type 0
Says k_new address entry kernel = maps_to entry address ≡ false
Says k_added address entry kernel =
    (entry ≡ some address) × ((ev : Flags) × (kernel ≡ some (address, ev)))
Says k_deleted address entry kernel = (entry ≡ some address) × (kernel ≡ none)

pub record Agrees (p : EpollPoller) : Type 0 where
  pub indices :
      (address : ℕ)
      → Says
          (p.index address)
          address
          (p.channels (fd_of address p))
          (interest p.calls (fd_of address p))
  pub absent : (fd : ℕ) → p.channels fd ≡ none → interest p.calls fd ≡ none
  pub own : (fd address : ℕ) → p.channels fd ≡ some address → fd_of address p ≡ fd
  pub allowed : AreAllowed p.calls

abbrev pub AgreesResult : Checked EpollPoller → Type 0
AgreesResult (ok p) = Agrees p
AgreesResult (fault e) = Unit {0}

-- What the indices of two channels say after one of them has been added, changed or taken away.
module _ (address other fa fo : ℕ) (same : other ≡ address → fo ≡ fa) (entry : Option ℕ)
    (kernel : Option (ℕ × Flags)) (ev : Flags) where
  pub Says-new :
      (i : Index)
      → (fo ≡ fa → entry ≡ none)
      → Says i other entry kernel
      → Says
          (if other == address then k_added else i)
          other
          (if fo == fa then some address else entry)
          (if fo == fa then some (address, ev) else kernel)
  Says-new k_new free s = ground (arith, same, free)
  Says-new k_added free s = ground (arith, same, free)
  Says-new k_deleted free s = ground (arith, same, free)

  -- The entry of the map stays, and it is the channel's own.
  pub Says-kept :
      (i : Index)
      → (fo ≡ fa → entry ≡ some address)
      → Says i other entry kernel
      → Says
          (if other == address then k_added else i)
          other
          entry
          (if fo == fa then some (address, ev) else kernel)
  Says-kept k_new own s = ground (arith, same, own)
  Says-kept k_added own s = ground (arith, same, own)
  Says-kept k_deleted own s = ground (arith, same, own)

  pub Says-deleted :
      (i : Index)
      → (fo ≡ fa → entry ≡ some address)
      → Says i other entry kernel
      → Says
          (if other == address then k_deleted else i)
          other
          entry
          (if fo == fa then none else kernel)
  Says-deleted k_new own s = ground (arith, same, own)
  Says-deleted k_added own s = ground (arith, same, own)
  Says-deleted k_deleted own s = ground (arith, same, own)

  pub Says-changed :
      (i : Index)
      → (fo ≡ fa → entry ≡ some address)
      → (other ≡ address → is_added i ≡ true)
      → Says i other entry kernel
      → Says i other entry (if fo == fa then some (address, ev) else kernel)
  Says-changed k_new own mine s = ground (arith, same, own, mine)
  Says-changed k_added own mine s = (
    s.0,
    elim (Bool-cases (fo == fa)) [
      | inl q ↦
          let e : entry ≡ some address = own ((==_iff fo fa).0 q) in
          rw q (ev, ap (λ o. elim o [ none ↦ none | some x ↦ some (x, ev) ]) (sym e ∙ s.0))
      | inr q ↦ rw q s.1
    ],
  )
  Says-changed k_deleted own mine s = ground (arith, same, own, mine)

  pub Says-removed :
      (i : Index)
      → (fo ≡ fa → entry ≡ some address)
      → Says i other entry kernel
      → Says
          (if other == address then k_new else i)
          other
          (if fo == fa then none else entry)
          (if fo == fa then none else kernel)
  Says-removed k_new own s = ground (arith, same, own)
  Says-removed k_added own s = ground (arith, same, own)
  Says-removed k_deleted own s = ground (arith, same, own)

  pub Says-forgotten :
      (i : Index)
      → (fo ≡ fa → entry ≡ some address)
      → Says i other entry kernel
      → Says (if other == address then k_new else i) other (if fo == fa then none else entry) kernel
  Says-forgotten k_new own s = ground (arith, same, own)
  Says-forgotten k_added own s = ground (arith, same, own)
  Says-forgotten k_deleted own s = ground (arith, same, own)

pub some_known : (o : Option (ℕ × Flags)) (x : ℕ × Flags) → o ≡ some x → o ≢ none
some_known o x h = rw h (ground arith)
