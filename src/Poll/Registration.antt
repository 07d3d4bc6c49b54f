-- ===== src/Poll/Registration.antt =====
-- The operations of muduo/net/poller/PollPoller.cc keep the array, the map and the indices fitting.
use cs_note.Common.{
  ℕ, ◌-◌, ◌≡◌, refl, sym, ap, ◌∙◌, true, false, ◌&&◌, ◌||◌, Option, none, some, List, [], ◌∷◌, ◌++◌,
  if◌then◌else◌, ◌==◌, ==_iff, ltb, length, length-append, get_elem?, set, arith, ℤ, pos, negsuc,
  Checked, ok, fault, assertion, Bool-cases, inl, inr,
}
use cs_note.Tcp.Channel.{Channel, is_none_event}
use cs_note.Epoll.{put_at, maps_to, is_absent}
use cs_note.Poll.{
  PollFd, PollPoller, fd_of, is_fd, is_ignored, number_of, pollfd_at, pop_back, new_entry,
  updated_entry, update_new, update_existing, update_indexed, update_channel, same_events,
  move_last, remove_at, remove_channel,
}
use cs_note.Poll.Positions.{
  get_elem?-lt, get_elem?-below, get_elem?-set, get_elem?-push, get_elem?-pop, get_elem?-swap,
}
use cs_note.Poll.Agreement.{Fits, Fits-push, Fits-set, Fits-pop, Fits-move}

abbrev pub Agrees : PollPoller → Type 0
Agrees p = Fits (get_elem? p.pollfds) p.channels p.index (λ a. fd_of a p)

-- An assertion may fail, but nothing is read out of range or through a null pointer.
abbrev pub AgreesResult : Checked PollPoller → Type 0
AgreesResult (ok p) = Agrees p
AgreesResult (fault assertion) = Unit {0}
AgreesResult (fault _) = ⊥

absent_none : (o : Option ℕ) → is_absent o ≡ true → o ≡ none
absent_none none h = refl
absent_none (some a) h = absurd (ground arith)

mapped_some : (o : Option ℕ) (a : ℕ) → maps_to o a ≡ true → o ≡ some a
mapped_some none a h = absurd (ground arith)
mapped_some (some b) a h = ap (λ c. some c) ((==_iff b a).0 h)

get_elem?-end : (xs : List PollFd) → get_elem? xs (length xs) ≡ none
get_elem?-end [] = refl
get_elem?-end (x ∷ xs) = get_elem?-end xs

named_fd : (z : ℤ) (n : ℕ) → (is_fd z n || is_ignored z n) ≡ true → number_of z ≡ n
named_fd (pos m) n h = ground arith
named_fd (negsuc m) n h = ground arith

updated_number :
    (address : ℕ) (p : PollPoller) → number_of ((updated_entry address p).fd) ≡ fd_of address p
updated_number address p = ground arith

update_new-Agrees : (address : ℕ) (p : PollPoller) → Agrees p → AgreesResult (update_new address p)
unfolding update_new
update_new-Agrees address p i = elim (Bool-cases (is_absent (p.channels (fd_of address p)))) [
  | inr e ↦ rw e tt
  | inl e ↦
      let f = new_entry address p in
      let size : length (p.pollfds ++ f ∷ []) - 1 ≡ length p.pollfds =
        ground (arith, length-append p.pollfds (f ∷ [])) in
      rw (e, size)
        (Fits-push (get_elem? p.pollfds) p.channels p.index (λ a. fd_of a p) i
          (get_elem? (p.pollfds ++ f ∷ [])) (length p.pollfds) address f (get_elem?-end p.pollfds)
          (λ j. get_elem?-push p.pollfds j f) (absent_none (p.channels (fd_of address p)) e) refl)
]

update_existing-Agrees :
    (k address : ℕ) (p : PollPoller)
    → Agrees p
    → p.index address ≡ some k
    → AgreesResult (update_existing k address p)
unfolding update_existing
update_existing-Agrees k address p i indexed =
    elim (Bool-cases (maps_to (p.channels (fd_of address p)) address)) [
      | inr e ↦ rw e tt
      | inl e ↦
          let s =
            i.placed (fd_of address p) address
              (mapped_some (p.channels (fd_of address p)) address e) in
          let stored : get_elem? p.pollfds k ≡ some s.entry =
            ground (arith, s.stored, s.indexed, indexed) in
          let low : ltb k (length p.pollfds) ≡ true =
            ground (arith, get_elem?-lt p.pollfds k s.entry stored) in
          elim (Bool-cases
            (is_fd (s.entry.fd) (fd_of address p) || is_ignored (s.entry.fd) (fd_of address p))) [
              | inr h ↦ rw (e, low) (rw (stored, pollfd_at) (rw h tt))
              | inl h ↦
                  rw (e, low)
                    (rw (stored, pollfd_at)
                      (rw h (
                        Fits-set (get_elem? p.pollfds) p.channels p.index (λ a. fd_of a p) i
                          (get_elem? (set p.pollfds k (updated_entry address p))) k s.entry
                          (updated_entry address p) stored
                          (λ j.
                            get_elem?-set p.pollfds k j (updated_entry address p) (ground arith))
                          (updated_number address p ∙ sym s.named))))
            ]
    ]

-- The moved entry's channel is in the map, and gets its new position.
move_last-Agrees :
    (k a : ℕ) (f : PollFd) (p : PollPoller)
    → Agrees p
    → p.channels (fd_of a p) ≡ some a
    → p.index a ≡ some k
    → get_elem? p.pollfds k ≡ some f
    → number_of f.fd ≡ fd_of a p
    → (k == length p.pollfds - 1) ≡ false
    → AgreesResult (move_last k (record p { channels = put_at (fd_of a p) none p.channels }))
unfolding move_last
move_last-Agrees k a f p i mapped indexed stored named apart =
    let low = get_elem?-lt p.pollfds k f stored in
    let last = length p.pollfds - 1 in
    let (g, stored') = get_elem?-below p.pollfds last (ground (arith, low)) in
    let (b, mapped', indexed') = i.owner last g stored' in
    let found : put_at (fd_of a p) none p.channels (number_of g.fd) ≡ some b =
      ground (arith, mapped, mapped', indexed, indexed', apart) in
    let swapped = set (set p.pollfds k g) last f in
    let at : (j : ℕ)
        → get_elem? (pop_back swapped) j
          ≡ (if j == last then none else if j == k then some g else get_elem? p.pollfds j) =
      λ j. get_elem?-swap p.pollfds k j f g low in
    rw (stored, pollfd_at)
      (rw (stored', pollfd_at)
        (rw found (
          Fits-move (get_elem? p.pollfds) p.channels p.index (λ c. fd_of c p) i
            (get_elem? (pop_back swapped)) k last a b f g stored stored' (ground (arith, apart)) at
            mapped indexed named mapped' indexed')))

remove_at-Agrees :
    (k a : ℕ) (p : PollPoller)
    → Agrees p
    → p.channels (fd_of a p) ≡ some a
    → p.index a ≡ some k
    → AgreesResult (remove_at k a p)
unfolding remove_at
remove_at-Agrees k a p i mapped indexed =
    let s = i.placed (fd_of a p) a mapped in
    let f = s.entry in
    let stored : get_elem? p.pollfds k ≡ some f = ground (arith, s.stored, s.indexed, indexed) in
    let low : ltb k (length p.pollfds) ≡ true = ground (arith, get_elem?-lt p.pollfds k f stored) in
    elim (Bool-cases (is_ignored f.fd (fd_of a p) && same_events f.events (p.objects a).events)) [
      | inr e ↦ rw low (rw (stored, pollfd_at) (rw e tt))
      | inl e ↦ rw low (
          rw (stored, pollfd_at)
            (rw e (elim (Bool-cases (k == length p.pollfds - 1)) [
              | inr h ↦ rw h (move_last-Agrees k a f p i mapped indexed stored s.named h)
              | inl h ↦ rw h (
                  Fits-pop (get_elem? p.pollfds) p.channels p.index (λ c. fd_of c p) i
                    (get_elem? (pop_back p.pollfds)) k a f stored
                    (λ j. ground (arith, get_elem?-pop p.pollfds j, h)) mapped indexed s.named)
            ])))
    ]

pub remove_channel-Agrees : (a : ℕ) (p : PollPoller) → Agrees p → AgreesResult (remove_channel a p)
unfolding remove_channel
remove_channel-Agrees a p i = elim (Bool-cases (maps_to (p.channels (fd_of a p)) a)) [
  | inr e ↦ rw e tt
  | inl e ↦ elim (Bool-cases (is_none_event (p.objects a).events)) [
    | inr h ↦ rw (e, h) tt
    | inl h ↦
        let mapped = mapped_some (p.channels (fd_of a p)) a e in
        let s = i.placed (fd_of a p) a mapped in
        rw (e, h, s.indexed) (remove_at-Agrees s.position a p i mapped s.indexed)
  ]
]

update_indexed-Agrees :
    (o : Option ℕ) (a : ℕ) (p : PollPoller)
    → Agrees p
    → p.index a ≡ o
    → AgreesResult (update_indexed o a p)
update_indexed-Agrees none a p i e = update_new-Agrees a p i
update_indexed-Agrees (some k) a p i e = update_existing-Agrees k a p i e

pub update_channel-Agrees : (a : ℕ) (p : PollPoller) → Agrees p → AgreesResult (update_channel a p)
unfolding update_channel
update_channel-Agrees a p i = update_indexed-Agrees (p.index a) a p i refl

-- Events of an object, watched or not, do not matter to where its entry is.
pub Agrees-objects :
    (p : PollPoller) (objects : ℕ → Channel)
    → ((a : ℕ) → (objects a).fd ≡ fd_of a p)
    → Agrees p
    → Agrees (record p { objects = objects })
Agrees-objects p objects same i = record {
  owner = i.owner;
  placed = λ n a h.
      let s = i.placed n a h in
      record {
        position = s.position;
        entry = s.entry;
        number = same a ∙ s.number;
        indexed = s.indexed;
        stored = s.stored;
        named = s.named;
      };
}
