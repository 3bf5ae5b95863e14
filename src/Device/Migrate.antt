-- ===== src/Device/Migrate.antt =====
-- Zones as targets of migrations: `GetMigrateTargetZone`, `TakeMigrateZone` and
-- `ReleaseMigrateZone` of fs/zbd_zenfs.cc. `none`: the call waits for another thread.
pub mod Leaks
use zenfs.Base.{ℕ, Bool, true, false, Option, none, some, if◌then◌else◌, get_elem?}
use zenfs.Status.{Status, ok, not_found, is_ok}
use zenfs.Zone.{Zone, lifetime_diff_not_good}
use zenfs.Device.State.{Zbd, io, with_lifetime, release_at, check_release_at}
use zenfs.Device.Tokens.{
  wait_for_open_io_zone_token, get_active_io_zone_token_if_available, put_open_io_zone_token,
}
use zenfs.Device.Select.{
  Held, Chosen, chosen, failed, choose, get_best_open_zone_match, worn_empty_zone, worn_open_zone,
}

module _ {D F : Type 0} where
  -- `migrate_resource_.wait` and the setting of `migrating_`.
  unfoldable pub begin_migration : Zbd D F → Option (Zbd D F)
  begin_migration s = if s.migrating then none else some (record s { migrating = true })

  -- The end of `GetMigrateTargetZone`.
  abbrev target_found : Chosen D F → Status × Option ℕ × Zbd D F
  target_found (failed st s) = (st, none, s)
  target_found (chosen h s) = elim h.zone [
    | none ↦ (not_found, none, record s { migrating = false })
    | some i ↦ (ok, some i, s)
  ]

  abbrev second_choice : ℕ → ℕ → Zbd D F → Status × Option ℕ × Zbd D F
  second_choice file_lifetime min_capacity s =
      target_found (choose (worn_open_zone file_lifetime min_capacity) 0 s)

  -- After the first loop: the empty zone is used if there is a token for one more active zone.
  abbrev use_worn_empty : ℕ → ℕ → Chosen D F → Status × Option ℕ × Zbd D F
  use_worn_empty file_lifetime min_capacity (failed st s) = (st, none, s)
  use_worn_empty file_lifetime min_capacity (chosen h s) = elim h.zone [
    | none ↦ second_choice file_lifetime min_capacity s
    | some i ↦
        let (got_token, s') = get_active_io_zone_token_if_available s in
        if got_token
        then (ok, some i, with_lifetime file_lifetime i (get_elem? s'.io_zones i) s')
        else second_choice file_lifetime min_capacity
            (release_at (io i) (put_open_io_zone_token s')).1
  ]

  unfoldable pub get_migrate_target_zone : ℕ → ℕ → Zbd D F → Option (Status × Option ℕ × Zbd D F)
  unfolding begin_migration wait_for_open_io_zone_token choose worn_empty_zone worn_open_zone
      get_active_io_zone_token_if_available put_open_io_zone_token release_at
  get_migrate_target_zone file_lifetime min_capacity s = elim (begin_migration s) [
    | none ↦ none
    | some s' ↦ elim (wait_for_open_io_zone_token true s') [
      | none ↦ none
      | some s'' ↦ some (use_worn_empty file_lifetime min_capacity (choose worn_empty_zone 0 s''))
    ]
  ]

  abbrev taken : Chosen D F → Status × Option ℕ × Zbd D F
  taken (failed st s) = (st, none, record s { migrating = false })
  taken (chosen h s) = elim h.zone [
    | none ↦ (ok, none, record s { migrating = false })
    | some i ↦ (ok, some i, s)
  ]

  unfoldable pub take_migrate_zone : ℕ → ℕ → Zbd D F → Option (Status × Option ℕ × Zbd D F)
  unfolding begin_migration get_best_open_zone_match
  take_migrate_zone file_lifetime min_capacity s = elim (begin_migration s) [
    | none ↦ none
    | some s' ↦ some (taken (get_best_open_zone_match file_lifetime min_capacity s'))
  ]

  unfoldable pub release_migrate_zone : Option ℕ → Zbd D F → Status × Zbd D F
  unfolding check_release_at
  release_migrate_zone zone s = elim zone [
    | none ↦ (ok, record s { migrating = false })
    | some i ↦ check_release_at (io i) (record s { migrating = false })
  ]
