-- ===== src/Zone/Local/RoundTrip.antt =====
-- `toLocalTime` and `fromLocalTime` of muduo/base/TimeZone.cc against each other.
use cs_note.Common.{
  ℕ, ◌≡◌, refl, ap, ◌∙◌, true, false, Bool-cases, inl, inr, some, List, [], ◌∷◌, drop, ℤ, ltb_ℤ,
  ◌+ℤ◌, add-sub, ok,
}
use cs_note.Zone.{Tm}
use cs_note.Zone.Local.{
  Transition, Localtime, Data, at, find_localtime, gmt_sentry, local_sentry, c_string,
  to_local_time, hack, from_local_time,
}
use cs_note.Zone.Local.Lookup.{in_force, IsAscending, find_localtime-in_force}

-- Every transition is on the same side of the UTC time `t` and of the local time `t + offset`, each
-- by its own clock: the local time is not one that the clocks were set back over.
unfoldable pub IsOnce : ℤ → ℤ → List Transition → Type 0
IsOnce t offset [] = Unit {0}
IsOnce t offset (x ∷ xs) =
    (ltb_ℤ (t +ℤ offset) x.localtime ≡ ltb_ℤ t x.gmttime) × IsOnce t offset xs

in_force_local :
    (t offset : ℤ) (idx : ℕ) (xs : List Transition)
    → IsOnce t offset xs
    → in_force false (t +ℤ offset) idx xs ≡ in_force true t idx xs
unfolding in_force IsOnce
in_force_local t offset idx [] h = refl
in_force_local t offset idx (x ∷ xs) (e, h) =
    rw (e, in_force_local t offset x.localtime_idx xs h) refl

-- What `toLocalTime` stamps on the broken-down time.
abbrev pub stamped : Data → Localtime → Tm → Tm
stamped d local tm = record tm {
  is_dst = local.is_dst;
  gmt_offset = local.gmt_offset;
  zone = c_string (drop local.arrb_idx d.abbreviation);
}

module _ (gmtime_r : ℤ → Tm) (timegm : Tm → ℤ) where
  to_local_time_lem :
      (d : Data) (t : ℤ) (local : Localtime)
      → find_localtime d (gmt_sentry t) true ≡ ok local
      → to_local_time gmtime_r (some d) t ≡ ok (stamped d local (gmtime_r (t +ℤ local.gmt_offset)))
  unfolding to_local_time
  to_local_time_lem d t local e = rw e refl

  hack_lem :
      (d : Data) (t : ℤ) (tm : Tm) (local : Localtime)
      → tm.is_dst ≡ local.is_dst
      → find_localtime d (gmt_sentry t) true ≡ ok local
      → hack gmtime_r (some d) tm local (t +ℤ local.gmt_offset) ≡ ok (t +ℤ local.gmt_offset)
  unfolding hack
  hack_lem d t tm local same e = elim (Bool-cases local.is_dst) [
    | inl f ↦ rw (same ∙ f, add-sub t local.gmt_offset, to_local_time_lem d t local e, f) refl
    | inr f ↦ rw (same ∙ f) refl
  ]

  -- `fromLocalTime` gives back the time that `toLocalTime` was given, daylight saving or not, where
  -- the transitions of the zone ascend by both clocks and the local time occurs once, and `timegm`
  -- inverts `gmtime_r` at it, whatever `toLocalTime` stamps.
  pub from_local_time-to_local_time :
      (d : Data) (t : ℤ) (local : Localtime)
      → IsAscending true d.transitions
      → IsAscending false d.transitions
      → at d.localtimes (in_force true t 0 d.transitions) ≡ ok local
      → IsOnce t local.gmt_offset d.transitions
      → timegm (stamped d local (gmtime_r (t +ℤ local.gmt_offset))) ≡ t +ℤ local.gmt_offset
      → (tm : Tm) × (to_local_time gmtime_r (some d) t ≡ ok tm)
        × (tm.is_dst ≡ local.is_dst)
        × (from_local_time gmtime_r timegm (some d) tm ≡ ok t)
  unfolding from_local_time
  from_local_time-to_local_time d t local up_gmt up_local e once inverse =
      let gmt : find_localtime d (gmt_sentry t) true ≡ ok local =
        find_localtime-in_force d true (gmt_sentry t) up_gmt ∙ e in
      let tm : Tm = stamped d local (gmtime_r (t +ℤ local.gmt_offset)) in
      let by_local : find_localtime d (local_sentry (t +ℤ local.gmt_offset)) false ≡ ok local =
        find_localtime-in_force d false (local_sentry (t +ℤ local.gmt_offset)) up_local
        ∙ ap (at d.localtimes) (in_force_local t local.gmt_offset 0 d.transitions once)
        ∙ e in
      (
        tm,
        to_local_time_lem d t local gmt,
        refl,
        rw (inverse, by_local, hack_lem d t tm local refl gmt, add-sub t local.gmt_offset) refl,
      )
