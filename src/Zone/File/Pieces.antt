-- ===== src/Zone/File/Pieces.antt =====
-- What the parts of `readTimeZoneFile` in muduo/base/TimeZone.cc read from the bytes of a zone.
use cs_note.Common.{
  word, IsInt32, int32_of-word, word-lt, ℕ, ◌≡◌, refl, ap, subst, ◌∙◌, sym, Bool, true, false, List,
  [], ◌∷◌, ◌++◌, append_assoc, append-nil, map, not, ◌==◌, if◌then◌else◌, length, ℤ, ◌+ℤ◌, be_bytes,
  from_be, from_be-be_bytes, length-be_bytes, length-append, take-append, drop-append, ok, arith,
}
use cs_note.Zone.Local.{Transition, Localtime, Data, at}
use cs_note.Zone.File.{
  returned, Load, ◌>>=◌, pure, read_exact, read_int32, read_uint8, read_times, read_indices,
  read_localtimes, add_transitions,
}

-- `m` reads the bytes `xs`, whatever follows them, returns `a`, and makes `d'` of the data `d`.
abbrev pub Loads : {A : Type 0} → Load A → List ℕ → Data → A → Data → Type 0
Loads m xs d a d' =
    (rest : List ℕ)
    → m (record { input = xs ++ rest; zone_data = d })
      ≡ returned a (record { input = rest; zone_data = d' })

bind-Loads :
    {A B : Type 0} (m : Load A) (k : A → Load B) (xs ys : List ℕ) (a : A) (b : B) (d d1 d2 : Data)
    → Loads m xs d a d1
    → Loads (k a) ys d1 b d2
    → Loads (m >>= k) (xs ++ ys) d b d2
bind-Loads m k xs ys a b d d1 d2 first second rest =
    rw (append_assoc xs ys rest, first (ys ++ rest)) (second rest)

pub read_exact-Loads :
    (n : ℕ) (xs : List ℕ) (d : Data) → n ≡ length xs → Loads (read_exact n) xs d xs d
unfolding read_exact
read_exact-Loads n xs d e rest =
    rw (take-append n xs rest e, drop-append n xs rest e) (ground (arith, length-append xs rest))

pub read_int32-Loads : (z : ℤ) (d : Data) → IsInt32 z → Loads read_int32 (be_bytes 4 (word z)) d z d
unfolding read_int32
read_int32-Loads z d h rest =
    rw
      (
        read_exact-Loads 4 (be_bytes 4 (word z)) d (sym (length-be_bytes 4 (word z))) rest,
        from_be-be_bytes 4 (word z) (word-lt z h),
      )
      (ap (λ y. returned y (record { input = rest; zone_data = d })) (int32_of-word z h))

read_uint8-Loads : (x : ℕ) (d : Data) → Loads read_uint8 (x ∷ []) d x d
unfolding read_uint8 from_be
read_uint8-Loads x d rest =
    rw (read_exact-Loads 1 (x ∷ []) d refl rest)
      (ap (λ y. returned y (record { input = rest; zone_data = d })) (omega arith))

pure-Loads :
    {A B : Type 0} (m : Load A) (f : A → B) (xs : List ℕ) (a : A) (d d' : Data)
    → Loads m xs d a d'
    → Loads (m >>= λ x. pure (f x)) xs d (f a) d'
pure-Loads m f xs a d d' h rest = rw (h rest) refl

abbrev pub int32_bytes : ℤ → List ℕ
int32_bytes z = be_bytes 4 (word z)

abbrev pub times_bytes : List Transition → List ℕ
times_bytes [] = []
times_bytes (x ∷ xs) = int32_bytes x.gmttime ++ times_bytes xs

abbrev pub localtimes_bytes : List Localtime → List ℕ
localtimes_bytes [] = []
localtimes_bytes (x ∷ xs) =
    int32_bytes x.gmt_offset ++ (if x.is_dst then 1 else 0) ∷ x.arrb_idx ∷ localtimes_bytes xs

abbrev pub times : List Transition → List ℤ
times xs = map (λ x. x.gmttime) xs

abbrev pub indices : List Transition → List ℕ
indices xs = map (λ x. x.localtime_idx) xs

-- A transition of a file: its time by the local clock counts with the offset that it begins.
pub record IsTransition (locals : List Localtime) (x : Transition) : Type 0 where
  pub local : Localtime
  pub found : at locals x.localtime_idx ≡ ok local
  pub shifted : x.localtime ≡ x.gmttime +ℤ local.gmt_offset
  pub fits : IsInt32 x.gmttime

unfoldable pub AreTransitions : List Localtime → List Transition → Type 0
AreTransitions locals [] = Unit {0}
AreTransitions locals (x ∷ xs) = IsTransition locals x × AreTransitions locals xs

unfoldable pub AreLocaltimes : List Localtime → Type 0
AreLocaltimes [] = Unit {0}
AreLocaltimes (x ∷ xs) = IsInt32 x.gmt_offset × AreLocaltimes xs

pub read_times-Loads :
    (locals : List Localtime) (xs : List Transition) (d : Data)
    → AreTransitions locals xs
    → Loads (read_times (length xs)) (times_bytes xs) d (times xs) d
unfolding read_times AreTransitions
read_times-Loads locals [] d h rest = refl
read_times-Loads locals (x ∷ xs) d (h, hs) rest =
    bind-Loads read_int32 _ (int32_bytes x.gmttime) (times_bytes xs) x.gmttime (times (x ∷ xs)) d d
      d (read_int32-Loads x.gmttime d h.fits)
      (pure-Loads (read_times (length xs)) (◌∷◌ x.gmttime) (times_bytes xs) (times xs) d d
        (read_times-Loads locals xs d hs))
      rest

pub read_indices-Loads :
    (xs : List Transition) (d : Data)
    → Loads (read_indices (length xs)) (indices xs) d (indices xs) d
unfolding read_indices
read_indices-Loads [] d rest = refl
read_indices-Loads (x ∷ xs) d rest =
    bind-Loads read_uint8 _ (x.localtime_idx ∷ []) (indices xs) x.localtime_idx (indices (x ∷ xs)) d
      d d (read_uint8-Loads x.localtime_idx d)
      (pure-Loads (read_indices (length xs)) (◌∷◌ x.localtime_idx) (indices xs) (indices xs) d d
        (read_indices-Loads xs d))
      rest

-- The data with local times, or transitions, added.
abbrev pub plus_localtimes : Data → List Localtime → Data
plus_localtimes d xs = record d { localtimes = d.localtimes ++ xs }

abbrev pub plus_transitions : Data → List Transition → Data
plus_transitions d xs = record d { transitions = d.transitions ++ xs }

flag : (b : Bool) → not ((if b then 1 else 0) == 0) ≡ b
flag true = refl
flag false = refl

pub read_localtimes-Loads :
    (xs : List Localtime) (d : Data)
    → AreLocaltimes xs
    → Loads (read_localtimes (length xs)) (localtimes_bytes xs) d tt (plus_localtimes d xs)
unfolding read_localtimes AreLocaltimes
read_localtimes-Loads [] d h rest = rw (append-nil d.localtimes) refl
read_localtimes-Loads (x ∷ xs) d (h, hs) rest =
    rw
      (
        append_assoc (int32_bytes x.gmt_offset) _ rest,
        read_int32-Loads x.gmt_offset d h _,
        read_uint8-Loads (if x.is_dst then 1 else 0) d _,
        read_uint8-Loads x.arrb_idx d _,
        flag x.is_dst,
      )
      (read_localtimes-Loads xs (plus_localtimes d (x ∷ [])) hs rest
        ∙ ap (λ l. returned tt (record { input = rest; zone_data = record d { localtimes = l } }))
            (append_assoc d.localtimes (x ∷ []) xs))

pub add_transitions-Loads :
    (xs : List Transition) (d : Data)
    → AreTransitions d.localtimes xs
    → Loads (add_transitions (times xs) (indices xs)) [] d tt (plus_transitions d xs)
unfolding add_transitions AreTransitions
add_transitions-Loads [] d h rest = rw (append-nil d.transitions) refl
add_transitions-Loads (x ∷ xs) d (h, hs) rest = rw h.found (
    subst
      (λ t.
        add_transitions (times xs) (indices xs) (record {
          input = rest;
          zone_data = plus_transitions d (record x { localtime = t } ∷ []);
        })
        ≡ returned tt (record { input = rest; zone_data = plus_transitions d (x ∷ xs) }))
      h.shifted
      (add_transitions-Loads xs (plus_transitions d (x ∷ [])) hs rest
        ∙ ap (λ l. returned tt (record { input = rest; zone_data = record d { transitions = l } }))
            (append_assoc d.transitions (x ∷ []) xs)))
