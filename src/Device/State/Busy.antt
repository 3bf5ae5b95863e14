-- ===== src/Device/State/Busy.antt =====
-- `Acquire`, `Release` and `CheckRelease` (fs/zbd_zenfs.h) of the io zone at a position.
use zenfs.Base.{ℕ, ◌≡◌, true, false, some, arith, get_elem?, set-get_elem?}
use zenfs.Status.{ok}
use zenfs.Zone.{Zone}
use zenfs.Device.State.{Zbd, io, put_zone, acquire_at, release_at, check_release_at}

module _ {D F : Type 0} (s : Zbd D F) (i : ℕ) (z : Zone)
    (at : get_elem? s.io_zones i ≡ some z) where
  pub acquire_at_busy : z.busy ≡ true → acquire_at (io i) s ≡ (false, s)
  unfolding acquire_at
  acquire_at_busy b = ground (arith, at, set-get_elem? s.io_zones i z at)

  pub acquire_at_free :
      z.busy ≡ false → acquire_at (io i) s ≡ (true, put_zone (io i) (record z { busy = true }) s)
  unfolding acquire_at
  acquire_at_free b = ground (arith, at)

  pub check_release_at_busy :
      z.busy ≡ true
      → check_release_at (io i) s ≡ (ok, put_zone (io i) (record z { busy = false }) s)
  unfolding check_release_at
  check_release_at_busy b = ground (arith, at)

  pub release_at_busy :
      z.busy ≡ true → release_at (io i) s ≡ (true, put_zone (io i) (record z { busy = false }) s)
  unfolding release_at
  release_at_busy b = ground (arith, at)
