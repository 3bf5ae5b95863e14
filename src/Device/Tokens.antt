-- ===== src/Device/Tokens.antt =====
-- The counts of open and of active zones: tokens, of which a caller takes one before it writes to a
-- closed zone. Each function is one critical section of `zone_resources_mtx_`.
use zenfs.Base.{Bool, true, false, Option, none, some, if◌then◌else◌}
use zenfs.Base.Int.{ℤ, pos, ◌+ℤ◌, ◌-ℤ◌, ltb_ℤ}
use zenfs.Base.Words.{sub32}
use zenfs.Status.{Status, is_ok}
use zenfs.Device.State.{Zbd}

module _ {D F : Type 0} where
  -- The limit is computed in `unsigned int`, and wraps at 0.
  abbrev pub allocator_open_limit : Bool → Zbd D F → ℤ
  allocator_open_limit prioritized s =
      pos (if prioritized then s.max_nr_open_io_zones else sub32 s.max_nr_open_io_zones 1)

  -- One evaluation of the wait's predicate; `none`: the caller goes on waiting.
  unfoldable pub wait_for_open_io_zone_token : Bool → Zbd D F → Option (Zbd D F)
  unfolding ◌+ℤ◌
  wait_for_open_io_zone_token prioritized s =
      if ltb_ℤ s.open_io_zones (allocator_open_limit prioritized s)
      then some (record s { open_io_zones = s.open_io_zones +ℤ pos 1 })
      else none

  unfoldable pub get_active_io_zone_token_if_available : Zbd D F → Bool × Zbd D F
  unfolding ◌+ℤ◌
  get_active_io_zone_token_if_available s =
      if ltb_ℤ s.active_io_zones (pos s.max_nr_active_io_zones)
      then (true, record s { active_io_zones = s.active_io_zones +ℤ pos 1 })
      else (false, s)

  unfoldable pub put_open_io_zone_token : Zbd D F → Zbd D F
  unfolding ◌-ℤ◌
  put_open_io_zone_token s = record s { open_io_zones = s.open_io_zones -ℤ pos 1 }

  unfoldable pub put_active_io_zone_token : Zbd D F → Zbd D F
  unfolding ◌-ℤ◌
  put_active_io_zone_token s = record s { active_io_zones = s.active_io_zones -ℤ pos 1 }

  -- The status is stored only over one that is not ok, as in the source.
  unfoldable pub set_zone_deferred_status : Status → Zbd D F → Zbd D F
  set_zone_deferred_status status s =
      if is_ok s.zone_deferred_status then s else record s { zone_deferred_status = status }
