-- ===== src/Fs/Migrate.antt =====
-- The migration of extents to other zones (fs/fs_zenfs.cc), by the garbage collector and by wear
-- levelling, and `SyncFileExtents`. No other thread deletes the file meanwhile, so that the test of
-- `MigrateFileExtents` whether it is still there always succeeds.
use zenfs.Base.{
  ℕ, ◌%◌, Bool, true, false, not, ◌&&◌, Option, none, some, List, [], ◌∷◌, ◌++◌, get_elem?,
  if◌then◌else◌, ◌==◌,
}
use zenfs.Base.Words.{u32, add64, sub64}
use zenfs.Status.{Status, ok, is_ok}
use zenfs.Zone.{Zone}
use zenfs.Device.State.{Zbd}
use zenfs.Device.Alloc.{reset_unused_io_zones}
use zenfs.Device.Migrate.{take_migrate_zone, release_migrate_zone, get_migrate_target_zone}
use zenfs.File.{
  FileName, ZoneFile, ZoneExtent, name_eq, sparse_header_size, metadata_unsynced, add_used,
  sub_used, try_acquire_wr_lock, release_wr_lock,
}
use zenfs.File.Read.{migrate_data}
use zenfs.File.Recover.{replace_extent_list}
use zenfs.Fs.{Env, ZenFs, Run, and_then, put_object, get_file_no_lock, ends_with, name_lt}
use zenfs.Fs.Log.{sync_file_metadata_no_lock}

-- `ZoneExtentSnapshot` of fs/snapshot.h.
pub record ZoneExtentSnapshot : Type 0 where
  pub start : ℕ
  pub length : ℕ
  pub zone_start : ℕ
  pub filename : FileName

-- `.sst`.
abbrev pub sst_ending : FileName
sst_ending = 46 ∷ 115 ∷ 115 ∷ 116 ∷ []

-- `std::find_if` for an extent: whether a snapshot has its start and its length.
abbrev pub is_listed : ZoneExtent → List ZoneExtentSnapshot → Bool
is_listed x [] = false
is_listed x (t ∷ ts) = if t.start == x.start && t.length == x.length then true else is_listed x ts

-- The extents of one file.
abbrev pub Group : Type 0
Group = FileName × List ZoneExtentSnapshot

-- The groups by file name, in the order of the names.
unfoldable pub add_to_group : ZoneExtentSnapshot → List Group → List Group
add_to_group x [] = (x.filename, x ∷ []) ∷ []
add_to_group x ((n, xs) ∷ gs) =
    let rest = add_to_group x gs in
    if name_eq n x.filename
    then (n, xs ++ x ∷ []) ∷ gs
    else if name_lt x.filename n
    then (x.filename, x ∷ []) ∷ (n, xs) ∷ gs
    else (n, xs) ∷ rest

unfoldable pub group_extents : List Group → List ZoneExtentSnapshot → List Group
unfolding add_to_group ends_with
group_extents gs [] = gs
group_extents gs (x ∷ xs) =
    if ends_with sst_ending x.filename
    then group_extents (add_to_group x gs) xs
    else group_extents gs xs

module _ {D F : Type 0} where
  -- The live data of the zones that extents have left.
  abbrev leave_zone : ZoneExtent → ZoneExtent → Zbd D F → Zbd D F
  leave_zone old new s = if old.start == new.start then s else sub_used old.zone old.length s

  unfoldable pub leave_zones : List ZoneExtent → List ZoneExtent → Zbd D F → Zbd D F
  unfolding sub_used
  leave_zones (old ∷ olds) (new ∷ news) s = leave_zones olds news (leave_zone old new s)
  leave_zones _ _ s = s

module _ {D F A : Type 0} (e : Env D F A) where
  abbrev left_zones : List ZoneExtent → List ZoneExtent → ZenFs D F A → Run D F A
  left_zones olds news s = some (ok, record s { zbd = leave_zones olds news s.zbd })

  unfoldable pub sync_file_extents : ℕ → List ZoneExtent → ZenFs D F A → Run D F A
  unfolding replace_extent_list metadata_unsynced sync_file_metadata_no_lock leave_zones
  sync_file_extents h new_extents s = elim (get_elem? s.store h) [
    | none ↦ none
    | some f ↦
        and_then
          (sync_file_metadata_no_lock e true h
            (put_object h (metadata_unsynced (replace_extent_list new_extents f)) s))
          (left_zones f.extents new_extents)
  ]

  module _ (fuel : ℕ) where
    -- The copy of one extent to the zone `target`, whose write pointer is where it goes; sparse
    -- extents take their header along.
    unfoldable pub move_extent :
        Bool → ℕ → Zone → ZoneExtent → Zbd D F → Option (ZoneExtent × Zbd D F)
    unfolding migrate_data add_used
    move_extent sparse target zone x s =
        let extra = (if sparse then sparse_header_size else 0) in
        elim (migrate_data e.platform fuel (sub64 x.start extra) (add64 x.length extra) target s) [
          | none ↦ none
          | some (st, s') ↦ some (
            record { start = add64 zone.wp extra; length = x.length; zone = target },
            add_used target x.length
                (record s' { gc_bytes_written = add64 s'.gc_bytes_written (add64 x.length extra) }),
          )
        ]

    -- A zone for an extent, as `TakeMigrateZone` and `GetMigrateTargetZone` give it.
    abbrev ZoneSource : Type 0
    ZoneSource = ℕ → ℕ → Zbd D F → Option (Status × Option ℕ × Zbd D F)

    abbrev moved :
        ZoneFile → ZoneExtent → Option (Status × Option ℕ × Zbd D F) → Option (ZoneExtent × Zbd D F)
    moved f x none = none
    moved f x (some (st, zone, s)) = if not (is_ok st) then some (x, s) else elim zone [
      | none ↦ some (x, (release_migrate_zone none s).1)
      | some i ↦ elim (get_elem? s.io_zones i) [
        | none ↦ none
        | some z ↦ elim (move_extent f.is_sparse i z x s) [
          | none ↦ none
          | some (x', s') ↦ some (x', (release_migrate_zone (some i) s').1)
        ]
      ]
    ]

    -- The loop over the new list of extents.
    unfoldable pub move_extents :
        ZoneSource
        → ZoneFile
        → List ZoneExtentSnapshot
        → List ZoneExtent
        → Zbd D F
        → Option (List ZoneExtent × Zbd D F)
    unfolding move_extent release_migrate_zone
    move_extents source f migrate_exts [] s = some ([], s)
    move_extents source f migrate_exts (x ∷ xs) s =
        elim (if is_listed x migrate_exts
          then moved f x (source f.lifetime x.length s)
          else some (x, s)) [
            | none ↦ none
            | some (x', s') ↦ elim (move_extents source f migrate_exts xs s') [
              | none ↦ none
              | some (xs', s'') ↦ some (x' ∷ xs', s'')
            ]
          ]

    -- The lock is given back whatever `SyncFileExtents` says.
    abbrev unlocked : ℕ → Run D F A → Run D F A
    unlocked h none = none
    unlocked h (some (st, s)) = elim (get_elem? s.store h) [
      | none ↦ none
      | some f ↦ some (ok, put_object h (release_wr_lock f) s)
    ]

    unfoldable pub migrate_object :
        ZoneSource → List ZoneExtentSnapshot → ℕ → ZenFs D F A → Run D F A
    unfolding try_acquire_wr_lock release_wr_lock move_extents sync_file_extents
    migrate_object source migrate_exts h s = elim (get_elem? s.store h) [
      | none ↦ none
      | some f ↦
          let (got, locked) = try_acquire_wr_lock f in
          if not got
          then some (ok, s)
          else elim (move_extents source f migrate_exts f.extents s.zbd) [
            | none ↦ none
            | some (new_extents, zbd') ↦
                unlocked h
                  (sync_file_extents h new_extents (put_object h locked (record s { zbd = zbd' })))
          ]
    ]

    unfoldable pub migrate_file_extents :
        ZoneSource → FileName → List ZoneExtentSnapshot → ZenFs D F A → Run D F A
    unfolding get_file_no_lock migrate_object
    migrate_file_extents source fname migrate_exts s = elim (get_file_no_lock e fname s) [
      | none ↦ some (ok, s)
      | some h ↦ migrate_object source migrate_exts h s
    ]

    unfoldable pub migrate_groups : ZoneSource → List Group → ZenFs D F A → Run D F A
    unfolding migrate_file_extents reset_unused_io_zones
    migrate_groups source [] s = some (ok, s)
    migrate_groups source ((fname, xs) ∷ gs) s =
        and_then (migrate_file_extents source fname xs s) (λ t.
          let (st, zbd') = reset_unused_io_zones e.platform t.zbd in
          let t' = record t { zbd = zbd' } in
          let rest = migrate_groups source gs t' in if is_ok st then rest else some (st, t'))

    -- `TakeMigrateZone` has the room to look for in 32 bits.
    unfoldable pub migrate_extents : List ZoneExtentSnapshot → ZenFs D F A → Run D F A
    unfolding group_extents migrate_groups take_migrate_zone
    migrate_extents extents s =
        migrate_groups (λ lifetime n. take_migrate_zone lifetime (n % u32))
          (group_extents [] extents) s

    unfoldable pub wl_migrate_extents : List ZoneExtentSnapshot → ZenFs D F A → Run D F A
    unfolding group_extents migrate_groups get_migrate_target_zone
    wl_migrate_extents extents s =
        migrate_groups get_migrate_target_zone (group_extents [] extents) s
