-- ===== src/Device/Open/Wraps.antt =====
-- The limit on open zones for devices with few of them (fs/zbd_zenfs.cc).
use zenfs.Base.{ℕ, ◌+◌, ◌≤◌, ◌<◌, ◌≡◌, false, some, arith}
use zenfs.Base.Int.{pos, ◌+ℤ◌}
use zenfs.Base.Words.{u32}
use zenfs.Device.State.{Zbd}
use zenfs.Device.Tokens.{wait_for_open_io_zone_token}
use zenfs.Device.Open.{io_zone_limit}

-- If the backend reports that 1 or 2 zones can be open, then the limits wrap around: a caller that is
-- not prioritized gets an open-zone token at once, however many zones are open (below 2 ^ 32 - 2).
pub wait_for_open_io_zone_token-unlimited :
    {D F : Type 0} (s : Zbd D F) (nr_zones max_open n : ℕ)
    → 0 < max_open
    → max_open ≤ 2
    → s.max_nr_open_io_zones ≡ io_zone_limit nr_zones max_open
    → s.open_io_zones ≡ pos n
    → n + 2 < u32
    → wait_for_open_io_zone_token false s
      ≡ some (record s { open_io_zones = s.open_io_zones +ℤ pos 1 })
unfolding wait_for_open_io_zone_token io_zone_limit
wait_for_open_io_zone_token-unlimited s nr_zones max_open n low high limit tokens below =
    ground arith
