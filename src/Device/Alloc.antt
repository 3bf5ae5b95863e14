-- ===== src/Device/Alloc.antt =====
-- The allocator of fs/zbd_zenfs.cc: finishing, resetting and allocating zones.
pub mod Frame
pub mod Sweeps
pub mod Settled
pub mod Accounting
pub mod Progress
pub mod LiveData
use zenfs.Base.{
  ℕ, zero, suc, ◌*◌, ◌/◌, Bool, true, false, not, ◌&&◌, ◌||◌, Option, none, some, if◌then◌else◌,
  ltb, leb, ◌==◌, length, get_elem?, set,
}
use zenfs.Base.Loop.{Flow, next, leave, for_range}
use zenfs.Base.Words.{mul64}
use zenfs.Status.{Status, ok, no_space, is_ok}
use zenfs.Platform.{Platform}
use zenfs.Zone.{
  Zone, is_used, is_full, is_empty, lifetime_diff_not_good, lifetime_diff_could_be_worse,
}
use zenfs.Device.State.{
  Zbd, ZoneRef, io, meta, with_lifetime, acquire_at, release_at, check_release_at, reset_at,
  finish_at,
}
use zenfs.Device.Tokens.{
  wait_for_open_io_zone_token, get_active_io_zone_token_if_available, put_open_io_zone_token,
  put_active_io_zone_token,
}
use zenfs.Device.Select.{
  Held, Chosen, chosen, failed, choose, cheapest_zone, get_best_open_zone_match,
  allocate_empty_zone,
}

module _ {D F : Type 0} where
  abbrev loop_status : Flow (Zbd D F) (Status × Zbd D F) → Status × Zbd D F
  loop_status (next s) = (ok, s)
  loop_status (leave r) = r

  abbrev go_on_if : Status × Zbd D F → Flow (Zbd D F) (Status × Zbd D F)
  go_on_if (st, s) = if is_ok st then next s else leave (st, s)

module _ {D F : Type 0} (p : Platform D F) where
  -- One zone of `ResetUnusedIOZones`, once acquired.
  abbrev reset_unused : ℕ → Zone → Zbd D F → Flow (Zbd D F) (Status × Zbd D F)
  reset_unused i z s =
      if not (is_empty z) && not (is_used z)
      then (let (reset_status, s') = reset_at p (io i) s in
          let (release_status, s'') = check_release_at (io i) s' in
          if not (is_ok reset_status)
          then leave (reset_status, s'')
          else if not (is_ok release_status)
          then leave (release_status, s'')
          else next (if is_full z then s'' else put_active_io_zone_token s''))
      else go_on_if (check_release_at (io i) s)

  unfoldable pub reset_unused_body : ℕ → Zbd D F → Flow (Zbd D F) (Status × Zbd D F)
  unfolding acquire_at check_release_at reset_at put_active_io_zone_token
  reset_unused_body i s = elim (get_elem? s.io_zones i) [
    | none ↦ next s
    | some z ↦ let (got, s') = acquire_at (io i) s in if got then reset_unused i z s' else next s'
  ]

  unfoldable pub reset_unused_io_zones : Zbd D F → Status × Zbd D F
  unfolding reset_unused_body for_range
  reset_unused_io_zones s = loop_status (for_range (length s.io_zones) 0 reset_unused_body s)

  -- One zone of `ApplyFinishThreshold`, once acquired.
  abbrev finish_if_low : ℕ → Zone → Zbd D F → Flow (Zbd D F) (Status × Zbd D F)
  finish_if_low i z s =
      if not (is_empty z || is_full z)
        && ltb z.capacity (mul64 z.max_capacity s.finish_threshold / 100)
      then (let (st, s') = finish_at p (io i) s in
          if is_ok st
          then (let (st', s'') = check_release_at (io i) s' in
              if is_ok st' then next (put_active_io_zone_token s'') else leave (st', s''))
          else leave (st, (release_at (io i) s').1))
      else go_on_if (check_release_at (io i) s)

  unfoldable pub finish_threshold_body : ℕ → Zbd D F → Flow (Zbd D F) (Status × Zbd D F)
  unfolding acquire_at check_release_at release_at finish_at put_active_io_zone_token
  finish_threshold_body i s = elim (get_elem? s.io_zones i) [
    | none ↦ next s
    | some z ↦ let (got, s') = acquire_at (io i) s in if got then finish_if_low i z s' else next s'
  ]

  unfoldable pub apply_finish_threshold : Zbd D F → Status × Zbd D F
  unfolding finish_threshold_body for_range
  apply_finish_threshold s =
      if s.finish_threshold == 0
      then (ok, s)
      else loop_status (for_range (length s.io_zones) 0 finish_threshold_body s)

  -- What `FinishCheapestIOZone` does with the zone that it chose.
  abbrev finish_victim : Chosen D F → Status × Zbd D F
  finish_victim (failed st s) = (st, s)
  finish_victim (chosen h s) = elim h.zone [
    | none ↦ (ok, s)
    | some i ↦
        let (st, s') = finish_at p (io i) s in
        let (release_status, s'') = check_release_at (io i) s' in
        let s''' = (if is_ok st then put_active_io_zone_token s'' else s'') in
        if is_ok release_status then (st, s''') else (release_status, s''')
  ]

  unfoldable pub finish_cheapest_io_zone : Zbd D F → Status × Zbd D F
  unfolding finish_at check_release_at put_active_io_zone_token choose cheapest_zone
  finish_cheapest_io_zone s = finish_victim (choose cheapest_zone 0 s)

  -- The loop of `AllocateMetaZone`, whose zones are those from position `i` on. A zone that is in
  -- use stays acquired, as in the source.
  unfoldable pub allocate_meta_zone_from : ℕ → ℕ → Zbd D F → Status × Option ℕ × Zbd D F
  unfolding acquire_at check_release_at reset_at
  allocate_meta_zone_from zero i s = (no_space, none, s)
  allocate_meta_zone_from (suc n) i s = elim (get_elem? s.meta_zones i) [
    | none ↦ allocate_meta_zone_from n (suc i) s
    | some z ↦
        let (got, s') = acquire_at (meta i) s in
        let rest = allocate_meta_zone_from n (suc i) s' in
        if not got || is_used z
        then rest
        else if is_empty z
        then (ok, some i, s')
        else (let (st, s'') = reset_at p (meta i) s' in
            let (st', s''') = check_release_at (meta i) s'' in
            let retry = allocate_meta_zone_from n (suc i) s''' in
            if is_ok st then (ok, some i, s'') else if is_ok st' then retry else (st', none, s'''))
  ]

  unfoldable pub allocate_meta_zone : Zbd D F → Status × Option ℕ × Zbd D F
  unfolding allocate_meta_zone_from
  allocate_meta_zone s = allocate_meta_zone_from (length s.meta_zones) 0 s

  -- `while (!got_token && !GetActiveIOZoneTokenIfAvailable()) FinishCheapestIOZone()`. Fuel: it goes
  -- round as long as no token is free.
  unfoldable pub claim_active_token : ℕ → Bool → Zbd D F → Option (Status × Zbd D F)
  unfolding get_active_io_zone_token_if_available finish_cheapest_io_zone
  claim_active_token zero got_token s = none
  claim_active_token (suc fuel) got_token s =
      if got_token
      then some (ok, s)
      else (let (got, s') = get_active_io_zone_token_if_available s in
          if got
          then some (ok, s')
          else (let (st, s'') = finish_cheapest_io_zone s' in
              let again = claim_active_token fuel false s'' in
              if is_ok st then again else some (st, s'')))

  -- What `AllocateIOZone` does with the zone that `AllocateEmptyZone` found, the lifetime included.
  abbrev use_empty_zone : ℕ → Chosen D F → Status × Option ℕ × Zbd D F
  use_empty_zone file_lifetime (failed st s) =
      (st, none, put_open_io_zone_token (put_active_io_zone_token s))
  use_empty_zone file_lifetime (chosen h s) = elim h.zone [
    | none ↦ (ok, none, put_open_io_zone_token (put_active_io_zone_token s))
    | some i ↦ (ok, some i, with_lifetime file_lifetime i (get_elem? s.io_zones i) s)
  ]

  unfoldable pub open_empty_zone : ℕ → Bool → ℕ → Zbd D F → Option (Status × Option ℕ × Zbd D F)
  unfolding claim_active_token put_open_io_zone_token put_active_io_zone_token allocate_empty_zone
  open_empty_zone fuel got_token file_lifetime s = elim (claim_active_token fuel got_token s) [
    | none ↦ none
    | some (st, s') ↦
        if is_ok st
        then some (use_empty_zone file_lifetime (allocate_empty_zone file_lifetime s'))
        else some (st, none, put_open_io_zone_token s')
  ]

  -- From the best match on, with the open token taken.
  abbrev use_best_match : ℕ → ℕ → Chosen D F → Option (Status × Option ℕ × Zbd D F)
  use_best_match fuel file_lifetime (failed st s) = some (st, none, put_open_io_zone_token s)
  use_best_match fuel file_lifetime (chosen h s) =
      if leb lifetime_diff_could_be_worse h.score
      then (let (got_token, s') = get_active_io_zone_token_if_available s in
          elim h.zone [
            | none ↦ open_empty_zone fuel got_token file_lifetime s'
            | some i ↦
                if not got_token && h.score == lifetime_diff_could_be_worse
                then some (ok, some i, s')
                else (let (st, s'') = check_release_at (io i) s' in
                    if is_ok st
                    then open_empty_zone fuel got_token file_lifetime s''
                    else (let s''' = put_open_io_zone_token s'' in
                        some
                          (st, none, (if got_token then put_active_io_zone_token s''' else s'''))))
          ])
      else elim h.zone [
        | none ↦ some (ok, none, put_open_io_zone_token s)
        | some i ↦ some (ok, some i, s)
      ]

  unfoldable pub allocate_holding_token : ℕ → ℕ → Zbd D F → Option (Status × Option ℕ × Zbd D F)
  unfolding open_empty_zone check_release_at get_active_io_zone_token_if_available
      get_best_open_zone_match put_open_io_zone_token put_active_io_zone_token
  allocate_holding_token fuel file_lifetime s =
      use_best_match fuel file_lifetime (get_best_open_zone_match file_lifetime 0 s)

  -- `none`: the call waits for a token that only another thread can give back, or goes round in
  -- `FinishCheapestIOZone` for more than `fuel` rounds.
  unfoldable pub allocate_io_zone : ℕ → ℕ → Bool → Zbd D F → Option (Status × Option ℕ × Zbd D F)
  unfolding apply_finish_threshold wait_for_open_io_zone_token allocate_holding_token
  allocate_io_zone fuel file_lifetime is_wal s =
      if not (is_ok s.zone_deferred_status)
      then some (s.zone_deferred_status, none, s)
      else (let (st, s') = (if is_wal then (ok, s) else apply_finish_threshold s) in
          if is_ok st
          then elim (wait_for_open_io_zone_token is_wal s') [
            | none ↦ none
            | some s'' ↦ allocate_holding_token fuel file_lifetime s''
          ]
          else some (st, none, s'))
