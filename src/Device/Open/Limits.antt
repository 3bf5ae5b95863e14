-- ===== src/Device/Open/Limits.antt =====
-- What `Open` makes of the zones and of the limits that the backend reports (fs/zbd_zenfs.cc).
use zenfs.Base.{
  ℕ, zero, suc, ◌<◌, ◌+◌, ◌≤◌, ◌≡◌, refl, ap, inl, inr, Bool, true, false, not, ◌&&◌, ◌||◌, some,
  List, [], ◌∷◌, ◌++◌, arith, length, ltb, ◌==◌, if◌then◌else◌, Bool-cases,
}
use mathlib.Core.List.{append-nil, append_assoc}
use zenfs.Base.Int.{pos, ◌+ℤ◌}
use zenfs.Base.Words.{u32}
use zenfs.Status.{ok}
use zenfs.Platform.{ZoneInfo, Platform, opened}
use zenfs.Zone.{Zone, new_zone, acquire, check_release, close}
use zenfs.Device.State.{Zbd}
use zenfs.Device.Open.{
  io_zone_limit, take_meta_zones, take_io_zone, take_io_zones, open_zbd, zenfs_meta_zones,
  zenfs_min_zones,
}

-- A zone that ZenFS uses: write pointers are sequential, and it is not offline.
abbrev pub is_usable : ZoneInfo → Bool
is_usable i = i.is_swr && not i.is_offline

abbrev pub usable_zones : List ZoneInfo → List Zone
usable_zones [] = []
usable_zones (i ∷ is) = if is_usable i then new_zone i ∷ usable_zones is else usable_zones is

abbrev pub active_zones : List ZoneInfo → ℕ
active_zones [] = 0
active_zones (i ∷ is) = (if is_usable i && i.is_active then 1 else 0) + active_zones is

take_meta_zones_lem :
    (m : ℕ) (is : List ZoneInfo)
    → m ≤ 3
    → ((take_meta_zones m is).0 ++ usable_zones (take_meta_zones m is).1 ≡ usable_zones is)
      × (length (take_meta_zones m is).0 + m ≤ 3)
unfolding take_meta_zones
take_meta_zones_lem m [] h = (refl, omega arith)
take_meta_zones_lem m (i ∷ is) h = elim (Bool-cases (ltb m zenfs_meta_zones)) [
  | inr e ↦ rw e (refl, omega arith)
  | inl e ↦
      let counted = take_meta_zones_lem (suc m) is (ground arith) in
      let passed = take_meta_zones_lem m is h in
      elim (Bool-cases i.is_swr) [
        | inr f ↦ rw (e, f) passed
        | inl f ↦ elim (Bool-cases i.is_offline) [
          | inl g ↦ rw (e, f, g) (counted.0, omega (arith, counted.1))
          | inr g ↦ rw (e, f, g) (ap (◌∷◌ (new_zone i)) counted.0, omega (arith, counted.1))
        ]
      ]
]

one_more : (a : ℕ) → pos a +ℤ pos 1 ≡ pos (1 + a)
unfolding ◌+ℤ◌
one_more a = ground arith

none_more : (a : ℕ) → 0 + a ≡ a
none_more a = omega arith

-- What a limit that the backend reports leaves for io zones.
abbrev pub usable_limit : ℕ → ℕ → ℕ
usable_limit nr_zones zero = nr_zones
usable_limit nr_zones (suc zero) = 4294967295
usable_limit nr_zones (suc (suc n)) = n

io_zone_limit-usable_limit :
    (nr_zones max : ℕ) → max < u32 → io_zone_limit nr_zones max ≡ usable_limit nr_zones max
unfolding io_zone_limit
io_zone_limit-usable_limit nr_zones zero small = refl
io_zone_limit-usable_limit nr_zones (suc zero) small = refl
io_zone_limit-usable_limit nr_zones (suc (suc n)) small = ground arith

module _ {D F : Type 0} (p : Platform D F) (readonly : Bool) where
  take_io_zone_lem :
      (i : ZoneInfo) (s : Zbd D F) (a : ℕ)
      → s.active_io_zones ≡ pos a
      → (dev : D) × (take_io_zone p readonly i s ≡ (
        ok,
        record s {
          dev = dev;
          io_zones = s.io_zones ++ new_zone i ∷ [];
          active_io_zones = pos ((if i.is_active then 1 else 0) + a);
        },
      ))
  unfolding take_io_zone acquire check_release new_zone
  take_io_zone_lem i s a e = (
    (if i.is_active && i.is_open && not readonly
        then (close p (record (new_zone i) { busy = true }) s.dev).1
        else s.dev),
    elim (Bool-cases i.is_active) [
      | inl f ↦ rw (e, f, one_more a) refl
      | inr f ↦ rw (e, f, none_more a) refl
    ],
  )

  take_io_zones_lem :
      (is : List ZoneInfo) (s : Zbd D F) (a : ℕ)
      → s.active_io_zones ≡ pos a
      → (dev : D) × (take_io_zones p readonly is s ≡ (
        ok,
        record s {
          dev = dev;
          io_zones = s.io_zones ++ usable_zones is;
          active_io_zones = pos (active_zones is + a);
        },
      ))
  unfolding take_io_zones
  take_io_zones_lem [] s a e = (s.dev, rw (e, append-nil s.io_zones, none_more a) refl)
  take_io_zones_lem (i ∷ is) s a e = elim (Bool-cases (is_usable i)) [
    | inl f ↦
        let (dev, eq) = take_io_zone_lem i s a e in
        let n = (if i.is_active then 1 else 0) + a in
        let s' = record s {
          dev = dev;
          io_zones = s.io_zones ++ new_zone i ∷ [];
          active_io_zones = pos n;
        } in
        let (dev', eq') = take_io_zones_lem is s' n refl in
        let sum : active_zones is + n ≡ (if i.is_active then 1 else 0) + active_zones is + a =
          omega arith in
        (
          dev',
          rw (f, eq, eq', append_assoc s.io_zones (new_zone i ∷ []) (usable_zones is), sum) refl,
        )
    | inr f ↦
        let (dev, eq) = take_io_zones_lem is s a e in
        let sum : active_zones is + a ≡ 0 + active_zones is + a = omega arith in
        (dev, rw (f, eq, sum) refl)
  ]

  -- `Open` succeeds, on a device with at least `ZENFS_MIN_ZONES` zones that opens and that reports all
  -- of them, if it opens for reading only or exclusively. It then has, in the order of the device, the
  -- zones with sequential write pointers that are not offline, each of them exactly once: at most
  -- three are metadata zones, and the others are io zones. Nobody holds an open zone, and the active
  -- ones are counted. A limit of the backend that is 2 or more leaves that number without two reserved
  -- zones; 0 leaves the number of all zones, and 1 wraps around to 2 ^ 32 - 1.
  pub open_zbd-Ready :
      (exclusive : Bool) (s : Zbd D F) (dev : D) (max_active max_open : ℕ) (infos : List ZoneInfo)
      → readonly || exclusive ≡ true
      → s.io_zones ≡ []
      → s.meta_zones ≡ []
      → p.open_device s.dev readonly exclusive ≡ (opened max_active max_open, dev)
      → zenfs_min_zones ≤ p.nr_zones
      → p.list_zones dev ≡ some infos
      → length infos ≡ p.nr_zones
      → max_active < u32
      → max_open < u32
      → let (st, t) = open_zbd p readonly exclusive s in
        (st ≡ ok)
        × (t.meta_zones ++ t.io_zones ≡ usable_zones infos)
        × (length t.meta_zones ≤ zenfs_meta_zones)
        × (t.open_io_zones ≡ pos 0)
        × (t.active_io_zones ≡ pos (active_zones (take_meta_zones 0 infos).1))
        × (t.max_nr_active_io_zones ≡ usable_limit p.nr_zones max_active)
        × (t.max_nr_open_io_zones ≡ usable_limit p.nr_zones max_open)
  unfolding open_zbd
  open_zbd-Ready exclusive s dev max_active max_open infos mode no_io no_meta op min list nr
        small_active small_open =
      let (meta, rest) = take_meta_zones 0 infos in
      let split = take_meta_zones_lem 0 infos (omega arith) in
      let way : (not readonly && not exclusive) ≡ false = ground arith in
      let enough : ltb p.nr_zones zenfs_min_zones ≡ false = ground arith in
      let all : (length infos == p.nr_zones) ≡ true = ground arith in
      let limited = record s {
        dev = dev;
        max_nr_active_io_zones = io_zone_limit p.nr_zones max_active;
        max_nr_open_io_zones = io_zone_limit p.nr_zones max_open;
        meta_zones = s.meta_zones ++ meta;
        active_io_zones = pos 0;
        open_io_zones = pos 0;
      } in
      let (dev', eq) = take_io_zones_lem rest limited 0 refl in
      rw (way, ap (λ r. r.0) op, ap (λ r. r.1) op, enough, list, ap (λ r. r.1) op, all, eq)
        (
          refl,
          rw (no_io, no_meta) split.0,
          rw no_meta (omega (arith, split.1)),
          refl,
          ap pos (omega arith),
          io_zone_limit-usable_limit p.nr_zones max_active small_active,
          io_zone_limit-usable_limit p.nr_zones max_open small_open,
        )
