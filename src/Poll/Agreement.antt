-- ===== src/Poll/Agreement.antt =====
-- The array, the map and the indices of muduo/net/poller/PollPoller.cc fit together.
use cs_note.Common.{
  ℕ, ◌≡◌, false, Option, none, some, if◌then◌else◌, ◌==◌, arith, Bool-cases, inl, inr,
}
use cs_note.Epoll.{put_at}
use cs_note.Poll.{PollFd, number_of}

-- A channel of the map: where its entry is.
pub record Placed (n a : ℕ) (slot : ℕ → Option PollFd) (index : ℕ → Option ℕ) (fd : ℕ → ℕ)
    : Type 0 where
  pub position : ℕ
  pub entry : PollFd
  pub number : fd a ≡ n
  pub indexed : index a ≡ some position
  pub stored : slot position ≡ some entry
  pub named : number_of entry.fd ≡ n

-- Every entry is that of a channel of the map, and every channel of the map has its entry.
pub record Fits (slot : ℕ → Option PollFd) (channels : ℕ → Option ℕ) (index : ℕ → Option ℕ)
    (fd : ℕ → ℕ) : Type 0 where
  pub owner :
      (i : ℕ) (f : PollFd)
      → slot i ≡ some f
      → (a : ℕ) × (channels (number_of f.fd) ≡ some a) × (index a ≡ some i)
  pub placed : (n a : ℕ) → channels n ≡ some a → Placed n a slot index fd

module _ (slot : ℕ → Option PollFd) (channels index : ℕ → Option ℕ) (fd : ℕ → ℕ)
    (i : Fits slot channels index fd) where
  -- A new entry at a free position, for a number that is not in the map.
  pub Fits-push :
      (slot' : ℕ → Option PollFd) (k a : ℕ) (f : PollFd)
      → slot k ≡ none
      → ((j : ℕ) → slot' j ≡ (if j == k then some f else slot j))
      → channels (fd a) ≡ none
      → number_of f.fd ≡ fd a
      → Fits slot' (put_at (fd a) (some a) channels) (put_at a (some k) index) fd
  Fits-push slot' k a f free at absent named = record {
    owner = λ j g h. elim (Bool-cases (j == k)) [
      | inl e ↦ (a, ground (arith, h, at j, e, named), ground (arith, e))
      | inr e ↦
          let (b, mapped, indexed) = i.owner j g (ground (arith, h, at j, e)) in
          let p = i.placed (number_of g.fd) b mapped in
          (b, ground (arith, mapped, absent), ground (arith, indexed, p.number, mapped, absent))
    ];
    placed = λ n b h. elim (Bool-cases (n == fd a)) [
      | inl e ↦ record {
        position = k;
        entry = f;
        number = ground (arith, h, e);
        indexed = ground (arith, h, e);
        stored = ground (arith, at k);
        named = ground (arith, named, e);
      }
      | inr e ↦
          let p = i.placed n b (ground (arith, h, e)) in
          record {
            position = p.position;
            entry = p.entry;
            number = p.number;
            indexed = ground (arith, p.indexed, p.number, e);
            stored = ground (arith, at p.position, p.stored, free);
            named = p.named;
          }
    ];
  }

  -- A new entry in the place of one of the same number.
  pub Fits-set :
      (slot' : ℕ → Option PollFd) (k : ℕ) (f g : PollFd)
      → slot k ≡ some f
      → ((j : ℕ) → slot' j ≡ (if j == k then some g else slot j))
      → number_of g.fd ≡ number_of f.fd
      → Fits slot' channels index fd
  Fits-set slot' k f g old at named = record {
    owner = λ j h e. elim (Bool-cases (j == k)) [
      | inl q ↦
          let (b, mapped, indexed) = i.owner k f old in
          (b, ground (arith, at j, e, q, named, mapped), ground (arith, indexed, q))
      | inr q ↦ i.owner j h (ground (arith, e, q, at j))
    ];
    placed = λ n b h.
        let p = i.placed n b h in
        record {
          position = p.position;
          entry = if p.position == k then g else p.entry;
          number = p.number;
          indexed = p.indexed;
          stored = ground (arith, at p.position, p.stored);
          named = ground (arith, p.named, p.stored, old, named);
        };
  }

  -- The entry of a channel goes, and is the last one.
  pub Fits-pop :
      (slot' : ℕ → Option PollFd) (k a : ℕ) (f : PollFd)
      → slot k ≡ some f
      → ((j : ℕ) → slot' j ≡ (if j == k then none else slot j))
      → channels (fd a) ≡ some a
      → index a ≡ some k
      → number_of f.fd ≡ fd a
      → Fits slot' (put_at (fd a) none channels) index fd
  Fits-pop slot' k a f old at mapped indexed named = record {
    owner = λ j h e.
        let (b, mapped', indexed') = i.owner j h (ground (arith, e, at j)) in
        (b, ground (arith, mapped, mapped', indexed, indexed', at j, e), indexed');
    placed = λ n b h.
        let p = i.placed n b (ground (arith, h)) in
        record {
          position = p.position;
          entry = p.entry;
          number = p.number;
          indexed = p.indexed;
          stored = ground (arith, at p.position, p.stored, old, named, p.named, h);
          named = p.named;
        };
  }

  -- The entry of a channel goes, and the last one takes its place.
  pub Fits-move :
      (slot' : ℕ → Option PollFd) (k last a b : ℕ) (f g : PollFd)
      → slot k ≡ some f
      → slot last ≡ some g
      → (last == k) ≡ false
      → ((j : ℕ) → slot' j ≡ (if j == last then none else if j == k then some g else slot j))
      → channels (fd a) ≡ some a
      → index a ≡ some k
      → number_of f.fd ≡ fd a
      → channels (number_of g.fd) ≡ some b
      → index b ≡ some last
      → Fits slot' (put_at (fd a) none channels) (put_at b (some k) index) fd
  Fits-move slot' k last a b f g old old' apart at mapped indexed named mapped' indexed' = record {
    owner = λ j h e. elim (Bool-cases (j == k)) [
      | inl q ↦ (
        b,
        ground (arith, q, e, at j, apart, mapped', mapped, indexed, indexed'),
        ground (arith, q),
      )
      | inr q ↦
          let (c, mapped'', indexed'') = i.owner j h (ground (arith, q, e, at j)) in
          (
            c,
            ground (arith, q, mapped, mapped'', indexed, indexed''),
            ground (arith, q, e, at j, indexed', indexed''),
          )
    ];
    placed = λ n c h.
        let p = i.placed n c (ground (arith, h)) in
        elim (Bool-cases (c == b)) [
          | inl q ↦ record {
            position = k;
            entry = g;
            number = p.number;
            indexed = ground (arith, q);
            stored = ground (arith, at k, apart);
            named = ground (arith, q, p.indexed, indexed', p.stored, old', p.named);
          }
          | inr q ↦ record {
            position = p.position;
            entry = p.entry;
            number = p.number;
            indexed = ground (arith, q, p.indexed);
            stored =
                ground (arith, at p.position, p.stored, old, old', p.named, named, h, q, mapped');
            named = p.named;
          }
        ];
  }
