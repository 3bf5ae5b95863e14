-- ===== src/Device/State.antt =====
-- The state of `ZonedBlockDevice`, `Zone::Reset` with the wear-levelling counters that it keeps, and
-- the operations of `Zone` on the zones that the device holds. A `Zone *` is a position.
pub mod Busy
pub mod Wakeups
use zenfs.Base.{
  ℕ, ◌/◌, Bool, false, ◌&&◌, Option, none, some, List, [], ◌∷◌, if◌then◌else◌, ltb, leb, length,
  get_elem?, set,
}
use zenfs.Base.Int.{ℤ}
use zenfs.Base.Words.{add32, sub32, mul32}
use zenfs.Status.{Status, ok, corruption, is_ok}
use zenfs.Platform.{Platform}
use zenfs.Zone.{Zone, acquire, release, check_release, reset_zone, finish, close, append}

-- The wear-levelling members.
pub record Wear (F : Type 0) : Type 0 where
  pub total_reset_count : ℕ
  pub check_reset_count : ℕ
  pub wl_trigger_count : ℕ
  pub reset_ratio_threshold : F
  pub wl_worker_sleep : Bool
  pub reset_std_dev_level : Bool

pub record Zbd (D F : Type 0) : Type 0 where
  pub dev : D
  pub io_zones : List Zone
  pub meta_zones : List Zone
  pub finish_threshold : ℕ
  pub bytes_written : ℕ
  pub gc_bytes_written : ℕ
  pub active_io_zones : ℤ
  pub open_io_zones : ℤ
  pub zone_deferred_status : Status
  pub migrating : Bool
  pub max_nr_active_io_zones : ℕ
  pub max_nr_open_io_zones : ℕ
  pub wear : Wear F
  pub open wear use *

pub data ZoneRef : Type 0 where
  io : ℕ → ZoneRef
  meta : ℕ → ZoneRef

abbrev pub reset_counts : List Zone → ℕ
reset_counts [] = 0
reset_counts (z ∷ zs) = add32 z.reset_count (reset_counts zs)

module _ {D F : Type 0} where
  abbrev pub get_zone : ZoneRef → Zbd D F → Option Zone
  get_zone (io i) s = get_elem? s.io_zones i
  get_zone (meta i) s = get_elem? s.meta_zones i

  abbrev pub put_zone : ZoneRef → Zone → Zbd D F → Zbd D F
  put_zone (io i) z s = record s { io_zones = set s.io_zones i z }
  put_zone (meta i) z s = record s { meta_zones = set s.meta_zones i z }

  -- `Acquire`, `Release` and `CheckRelease` of the zone at a position.
  unfoldable pub acquire_at : ZoneRef → Zbd D F → Bool × Zbd D F
  unfolding acquire
  acquire_at r s = elim (get_zone r s) [
    | none ↦ (false, s)
    | some z ↦ let (got, z') = acquire z in (got, put_zone r z' s)
  ]

  unfoldable pub release_at : ZoneRef → Zbd D F → Bool × Zbd D F
  unfolding release
  release_at r s = elim (get_zone r s) [
    | none ↦ (false, s)
    | some z ↦ let (freed, z') = release z in (freed, put_zone r z' s)
  ]

  unfoldable pub check_release_at : ZoneRef → Zbd D F → Status × Zbd D F
  unfolding check_release
  check_release_at r s = elim (get_zone r s) [
    | none ↦ (corruption, s)
    | some z ↦ let (st, z') = check_release z in (st, put_zone r z' s)
  ]

  -- `zone->lifetime_ = lifetime`, for the io zone at a position.
  abbrev pub with_lifetime : ℕ → ℕ → Option Zone → Zbd D F → Zbd D F
  with_lifetime lifetime i none s = s
  with_lifetime lifetime i (some z) s = put_zone (io i) (record z { lifetime = lifetime }) s

  unfoldable pub get_io_zone_reset_count_now : Zbd D F → ℕ
  get_io_zone_reset_count_now s = reset_counts s.io_zones

  unfoldable pub get_meta_zone_reset_count_now : Zbd D F → ℕ
  get_meta_zone_reset_count_now s = reset_counts s.meta_zones

  unfoldable pub wakeup_wl_worker : Zbd D F → Zbd D F
  wakeup_wl_worker s = record s { wear = record (s.wear) { wl_worker_sleep = false } }

  unfoldable pub set_total_reset_count : Zbd D F → Zbd D F
  unfolding get_io_zone_reset_count_now get_meta_zone_reset_count_now
  set_total_reset_count s = record s {
    wear = record (s.wear) {
      total_reset_count = add32 (get_io_zone_reset_count_now s) (get_meta_zone_reset_count_now s);
    };
  }

module _ {D F : Type 0} (p : Platform D F) where
  abbrev square_sum : F → F → List Zone → F
  square_sum mean sum [] = sum
  square_sum mean sum (z ∷ zs) =
      let d = p.double.sub (p.double.of_ℕ z.reset_count) mean in
      square_sum mean (p.double.add sum (p.double.square d)) zs

  -- The mean is an integer quotient, as `uint32_t / int` is.
  unfoldable pub get_reset_count_std_dev : Zbd D F → F
  unfolding get_io_zone_reset_count_now
  get_reset_count_std_dev s =
      let n = length s.io_zones in
      let mean = p.double.of_ℕ (get_io_zone_reset_count_now s / n) in
      let sum = square_sum mean (p.double.of_ℕ 0) s.io_zones in
      p.double.sqrt (p.double.div sum (p.double.of_ℕ n))

  -- The test for a wake-up of the wear-levelling worker, and what it then sets.
  abbrev relax_threshold : Zbd D F → F
  relax_threshold s =
      let k = p.double.one_and_a_half in
      let dev = get_reset_count_std_dev s in
      p.double.div s.reset_ratio_threshold
        (p.double.add (p.double.of_ℕ 1) (p.double.div (p.double.sub dev k) k))

  unfoldable pub wake_if_due : ℕ → Zbd D F → Zbd D F
  unfolding wakeup_wl_worker get_reset_count_std_dev
  wake_if_due io_zones_reset_count s =
      let diff = sub32 io_zones_reset_count s.check_reset_count in
      if p.double.gt (p.double.of_ℕ (mul32 100 diff))
          (p.double.mul (p.double.of_ℕ io_zones_reset_count) s.reset_ratio_threshold)
        && leb p.nr_zones diff
      then (let relaxed =
            (if leb 2 s.wl_trigger_count
              then record s {
                wear = record (s.wear) {
                  wl_trigger_count = 0;
                  reset_ratio_threshold = relax_threshold s;
                };
              }
              else s) in
          let woken = wakeup_wl_worker relaxed in
          record woken { wear = record (woken.wear) { check_reset_count = io_zones_reset_count } })
      else s

  -- The second half of `Zone::Reset`, after the zone's own counter has gone up.
  unfoldable pub note_reset : Zbd D F → Zbd D F
  unfolding wake_if_due get_meta_zone_reset_count_now
  note_reset s =
      let total = add32 s.total_reset_count 1 in
      let counted = record s { wear = record (s.wear) { total_reset_count = total } } in
      let io_zones_reset_count = sub32 total (get_meta_zone_reset_count_now s) in
      if ltb p.nr_zones total
      then wake_if_due io_zones_reset_count (
          if ltb counted.check_reset_count p.nr_zones
          then record counted { wear = record (counted.wear) { check_reset_count = p.nr_zones } }
          else counted)
      else counted

  unfoldable pub reset_at : ZoneRef → Zbd D F → Status × Zbd D F
  unfolding reset_zone note_reset
  reset_at r s = elim (get_zone r s) [
    | none ↦ (corruption, s)
    | some z ↦
        let (ios, z', dev') = reset_zone p z s.dev in
        let s' = put_zone r z' (record s { dev = dev' }) in
        if is_ok ios then (ok, note_reset s') else (ios, s')
  ]

  unfoldable pub finish_at : ZoneRef → Zbd D F → Status × Zbd D F
  unfolding finish
  finish_at r s = elim (get_zone r s) [
    | none ↦ (corruption, s)
    | some z ↦
        let (ios, z', dev') = finish p z s.dev in (ios, put_zone r z' (record s { dev = dev' }))
  ]

  unfoldable pub close_at : ZoneRef → Zbd D F → Status × Zbd D F
  unfolding close
  close_at r s = elim (get_zone r s) [
    | none ↦ (corruption, s)
    | some z ↦ let (ios, dev') = close p z s.dev in (ios, record s { dev = dev' })
  ]

  -- `none`: the device stops taking bytes, and the call does not return.
  unfoldable pub append_at : ZoneRef → List ℕ → Zbd D F → Option (Status × Zbd D F)
  unfolding append
  append_at r buf s = elim (get_zone r s) [
    | none ↦ some (corruption, s)
    | some z ↦ elim (append p buf z s.dev s.bytes_written) [
      | none ↦ none
      | some a ↦
          some (a.status, put_zone r a.zone (record s { dev = a.dev; bytes_written = a.written }))
    ]
  ]
