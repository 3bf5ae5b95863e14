-- ===== src/Device/Open.antt =====
-- `ZonedBlockDevice::Open` of fs/zbd_zenfs.cc: the limits, and the zones for metadata and for data.
pub mod Limits
pub mod Wraps
use zenfs.Base.{
  ℕ, zero, suc, Bool, true, false, not, ◌&&◌, Option, none, some, List, [], ◌∷◌, ◌++◌,
  if◌then◌else◌, ltb, leb, ◌==◌, length,
}
use zenfs.Base.Int.{ℤ, pos, ◌+ℤ◌}
use zenfs.Base.Words.{sub32}
use zenfs.Status.{Status, ok, io_error, corruption, invalid_argument, not_supported, is_ok}
use zenfs.Platform.{ZoneInfo, Platform, OpenReply, not_opened, opened}
use zenfs.Zone.{Zone, new_zone, acquire, close, check_release}
use zenfs.Device.State.{Zbd}

-- `ZENFS_META_ZONES` and `ZENFS_MIN_ZONES`.
abbrev pub zenfs_meta_zones : ℕ
zenfs_meta_zones = 3

abbrev pub zenfs_min_zones : ℕ
zenfs_min_zones = 32

-- One zone for metadata and one for the migration of extents.
abbrev pub reserved_zones : ℕ
reserved_zones = 2

-- 0 stands for no limit; the difference is one of `unsigned int`.
unfoldable pub io_zone_limit : ℕ → ℕ → ℕ
io_zone_limit nr_zones max = if max == 0 then nr_zones else sub32 max reserved_zones

-- The `while` loop: the zones for metadata, and what is left of the list. An offline zone counts.
unfoldable pub take_meta_zones : ℕ → List ZoneInfo → List Zone × List ZoneInfo
unfolding new_zone
take_meta_zones m [] = ([], [])
take_meta_zones m (i ∷ is) =
    let (counted, rest) = take_meta_zones (suc m) is in
    let (passed, rest') = take_meta_zones m is in
    if ltb m zenfs_meta_zones
    then (if i.is_swr
        then (if i.is_offline then (counted, rest) else (new_zone i ∷ counted, rest))
        else (passed, rest'))
    else ([], i ∷ is)

module _ {D F : Type 0} (p : Platform D F) where
  -- One data zone: it is acquired, closed if it is open, and released.
  unfoldable pub take_io_zone : Bool → ZoneInfo → Zbd D F → Status × Zbd D F
  unfolding new_zone acquire close check_release ◌+ℤ◌
  take_io_zone readonly i s =
      let (got, z) = acquire (new_zone i) in
      if not got
      then (corruption, s)
      else (let dev =
            (if i.is_active && i.is_open && not readonly then (close p z s.dev).1 else s.dev) in
          let (st, z') = check_release z in
          (
            st,
            record s {
              dev = dev;
              io_zones = s.io_zones ++ z' ∷ [];
              active_io_zones =
                  if i.is_active then s.active_io_zones +ℤ pos 1 else s.active_io_zones;
            },
          ))

  -- The `for` loop.
  unfoldable pub take_io_zones : Bool → List ZoneInfo → Zbd D F → Status × Zbd D F
  take_io_zones readonly [] s = (ok, s)
  take_io_zones readonly (i ∷ is) s =
      let (st, s') = take_io_zone readonly i s in
      let rest = take_io_zones readonly is (if i.is_swr && not i.is_offline then s' else s) in
      if i.is_swr && not i.is_offline && not (is_ok st) then (st, s') else rest

  unfoldable pub open_zbd : Bool → Bool → Zbd D F → Status × Zbd D F
  unfolding io_zone_limit take_meta_zones take_io_zones
  open_zbd readonly exclusive s =
      if not readonly && not exclusive
      then (invalid_argument, s)
      else (let (reply, dev) = p.open_device s.dev readonly exclusive in
          let s' = record s { dev = dev } in
          elim reply [
            | not_opened ios ↦ (ios, s')
            | opened max_active max_open ↦
                if ltb p.nr_zones zenfs_min_zones
                then (not_supported, s')
                else (let limited = record s' {
                  max_nr_active_io_zones = io_zone_limit p.nr_zones max_active;
                  max_nr_open_io_zones = io_zone_limit p.nr_zones max_open;
                } in
                    elim (p.list_zones dev) [
                      | none ↦ (io_error, limited)
                      | some infos ↦
                          if length infos == p.nr_zones
                          then (let (meta, rest) = take_meta_zones 0 infos in
                              take_io_zones readonly rest (record limited {
                                meta_zones = limited.meta_zones ++ meta;
                                active_io_zones = pos 0;
                                open_io_zones = pos 0;
                              }))
                          else (io_error, limited)
                    ])
          ])
