-- ===== src/Fs/Log.antt =====
-- The records that `ZenFS` writes to its metadata log (fs/fs_zenfs.cc), and the change to a new
-- metadata zone when one is full.
pub mod Zones
pub mod Returns
use zenfs.Base.{
  ℕ, Bool, true, false, not, Option, none, some, List, [], ◌∷◌, ◌++◌, length, get_elem?, set, take,
  if◌then◌else◌, ltb, ◌==◌,
}
use zenfs.Base.Words.{sub32}
use zenfs.Status.{Status, ok, no_space, io_error, is_ok}
use zenfs.Zone.{Zone}
use zenfs.Coding.{Coding}
use zenfs.Device.State.{Zbd, meta, finish_at, reset_at, release_at}
use zenfs.Device.Alloc.{allocate_meta_zone}
use zenfs.Device.Space.{get_io_zones_reset_count_array, nr_io_zones}
use zenfs.Superblock.{encode_super}
use zenfs.MetaLog.{MetaLog, new_meta_log, add_record}
use zenfs.File.{FileName, ZoneFile, metadata_synced}
use zenfs.File.Format.{encode_snapshot, encode_update}
use zenfs.Fs.Tag
use zenfs.Fs.{Env, ZenFs, Run, put_object, handles, and_then}

-- `s == IOStatus::NoSpace()`.
abbrev pub is_no_space : Status → Bool
is_no_space no_space = true
is_no_space _ = false

-- `MetadataSynced` of the objects that the map refers to.
abbrev pub sync_object : ℕ → Option ZoneFile → List ZoneFile → List ZoneFile
sync_object h none store = store
sync_object h (some f) store = set store h (metadata_synced f)

unfoldable pub sync_objects : List ℕ → List ZoneFile → List ZoneFile
unfolding metadata_synced
sync_objects [] store = store
sync_objects (h ∷ hs) store = sync_objects hs (sync_object h (get_elem? store h) store)

module _ (c : Coding) where
  -- `PutFixed32` of each count.
  abbrev put_counts : List ℕ → List ℕ
  put_counts [] = []
  put_counts (n ∷ ns) = c.put_fixed32 n ++ put_counts ns

  unfoldable pub encode_file_deletion : ZoneFile → FileName → List ℕ
  encode_file_deletion f linkf =
      c.put_fixed32 Tag.file_deletion
      ++ c.put_length_prefixed_slice (c.put_fixed64 f.file_id ++ c.put_length_prefixed_slice linkf)

  -- The record of `SyncFileMetadataNoLock`.
  unfoldable pub encode_file_record : Bool → ZoneFile → List ℕ
  unfolding encode_update
  encode_file_record replace f =
      c.put_fixed32 (if replace then Tag.file_replace else Tag.file_update)
      ++ c.put_length_prefixed_slice (encode_update c f)

  -- The members of a snapshot, in the order of the map: one for each name.
  unfoldable pub encode_files : List ZoneFile → List (FileName × ℕ) → List ℕ
  unfolding encode_snapshot
  encode_files store [] = []
  encode_files store ((n, h) ∷ m) = elim (get_elem? store h) [
    | none ↦ encode_files store m
    | some f ↦ c.put_length_prefixed_slice (encode_snapshot c f) ++ encode_files store m
  ]

  unfoldable pub encode_snapshot_to : List ZoneFile → List (FileName × ℕ) → List ℕ
  unfolding encode_files
  encode_snapshot_to store files =
      c.put_fixed32 Tag.complete_files_snapshot
      ++ c.put_length_prefixed_slice (encode_files store files)

module _ {D F A : Type 0} (e : Env D F A) where
  unfoldable pub encode_io_zone_reset_count : Zbd D F → Option (List ℕ)
  unfolding get_io_zones_reset_count_array
  encode_io_zone_reset_count s =
      elim (get_io_zones_reset_count_array (nr_io_zones (e.platform).nr_zones) e.memory s) [
        | none ↦ none
        | some reset_count ↦
            some ((e.coding).put_fixed32 Tag.io_zone_reset_count ++ put_counts e.coding reset_count)
      ]

  abbrev with_zbd : ZenFs D F A → Option (Status × Zbd D F) → Run D F A
  with_zbd s none = none
  with_zbd s (some (st, zbd')) = some (st, record s { zbd = zbd' })

  -- `AddRecord` to a log.
  unfoldable pub add_to_log : MetaLog → List ℕ → ZenFs D F A → Run D F A
  unfolding add_record
  add_to_log log body s = with_zbd s (add_record e.coding e.platform log body s.zbd)

  abbrev pub synced : Run D F A → Run D F A
  synced none = none
  synced (some (st, s)) =
      some
        (st, (if is_ok st then record s { store = sync_objects (handles s.files) s.store } else s))

  unfoldable pub write_snapshot_locked : MetaLog → ZenFs D F A → Run D F A
  unfolding encode_snapshot_to add_to_log sync_objects
  write_snapshot_locked log s =
      synced (add_to_log log (encode_snapshot_to e.coding s.store s.files) s)

  unfoldable pub write_end_record : MetaLog → ZenFs D F A → Run D F A
  unfolding add_to_log
  write_end_record log s = add_to_log log ((e.coding).put_fixed32 Tag.end_record) s

  -- `GetZone()->GetCapacityLeft()`.
  abbrev pub capacity_left : MetaLog → ZenFs D F A → ℕ
  capacity_left log s = elim (get_elem? s.zbd.meta_zones log.zone) [
    | none ↦ 0
    | some z ↦ z.capacity
  ]

  -- A call whose status is not looked at.
  abbrev pub whatever : Run D F A → (ZenFs D F A → Run D F A) → Run D F A
  whatever none k = none
  whatever (some (st, s)) k = k s

  abbrev pub finish_log_zone : MetaLog → ZenFs D F A → ZenFs D F A
  finish_log_zone log s =
      if capacity_left log s == 0
      then s
      else record s { zbd = (finish_at e.platform (meta log.zone) s.zbd).1 }

  -- `~ZenMetaLog` gives the zone free.
  unfoldable pub release_log : MetaLog → ZenFs D F A → ZenFs D F A
  unfolding release_at
  release_log log s = record s { zbd = (release_at (meta log.zone) s.zbd).1 }

  -- The old log, before the superblock goes to the new one.
  unfoldable pub end_old_log : MetaLog → ZenFs D F A → Run D F A
  unfolding write_end_record finish_at
  end_old_log old s =
      if capacity_left old s == 0
      then some (ok, s)
      else whatever (write_end_record old s) (λ t. some (ok, finish_log_zone old t))

  abbrev pub io_error_unless_ok : Run D F A → (ZenFs D F A → Run D F A) → Run D F A
  io_error_unless_ok none k = none
  io_error_unless_ok (some (st, s)) k = if is_ok st then k s else some (io_error, s)

  -- The superblock, with its next sequence number, and a snapshot open the new log.
  unfoldable pub start_new_log : MetaLog → ZenFs D F A → Run D F A
  unfolding add_to_log encode_super write_snapshot_locked
  start_new_log log s = elim s.superblock [
    | none ↦ none
    | some sb ↦
        let (super_string, sb') = encode_super e.coding sb in
        io_error_unless_ok (add_to_log log super_string (record s { superblock = some sb' }))
          (write_snapshot_locked log)
  ]

  abbrev pub reset_old : MetaLog → Run D F A → Run D F A
  reset_old old none = none
  reset_old old (some (st, s)) = some (
    st,
    release_log old
        (if is_ok st then record s { zbd = (reset_at e.platform (meta old.zone) s.zbd).1 } else s),
  )

  -- The swap of the logs, once a zone is allocated: `old` is the log in use, `new_zone` the zone.
  abbrev pub swap_logs : ℕ → ZenFs D F A → Option MetaLog → Option Zone → Run D F A
  swap_logs i s none new_zone = none
  swap_logs i s (some old) none = none
  swap_logs i s (some old) (some z) =
      let new_log = new_meta_log (e.platform).block_size z i in
      reset_old old
        (and_then (end_old_log old (record s { meta_log = some new_log })) (start_new_log new_log))

  unfoldable pub roll_to : ℕ → ZenFs D F A → Run D F A
  unfolding end_old_log start_new_log release_log reset_at new_meta_log
  roll_to i s = swap_logs i s s.meta_log (get_elem? s.zbd.meta_zones i)

  abbrev pub rolled : ZenFs D F A → Status × Option ℕ × Zbd D F → Run D F A
  rolled s (st, zone, zbd') =
      let s' = record s { zbd = zbd' } in
      if not (is_ok st)
      then some (st, s')
      else elim zone [ none ↦ some (no_space, s') | some i ↦ roll_to i s' ]

  unfoldable pub roll_meta_zone_locked : ZenFs D F A → Run D F A
  unfolding allocate_meta_zone roll_to
  roll_meta_zone_locked s = rolled s (allocate_meta_zone e.platform s.zbd)

  abbrev pub roll_if_full : Run D F A → Run D F A
  roll_if_full none = none
  roll_if_full (some (st, s)) = if is_no_space st then roll_meta_zone_locked s else some (st, s)

  unfoldable pub persist_snapshot : MetaLog → ZenFs D F A → Run D F A
  unfolding write_snapshot_locked roll_meta_zone_locked
  persist_snapshot log s = roll_if_full (write_snapshot_locked log s)

  abbrev pub persist_to : List ℕ → ZenFs D F A → Option MetaLog → Run D F A
  persist_to body s none = none
  persist_to body s (some log) = roll_if_full (add_to_log log body s)

  unfoldable pub persist_record : List ℕ → ZenFs D F A → Run D F A
  unfolding add_to_log roll_meta_zone_locked
  persist_record body s = persist_to body s s.meta_log

  -- `SetFileModificationTime(time(0))`, for an update.
  abbrev pub stamp : Bool → ℕ → ZoneFile → ZenFs D F A → ZoneFile × ZenFs D F A
  stamp replace h f s =
      if replace
      then (f, s)
      else (let (now, aux') = e.time s.aux in
          let f' = record f { m_time = now } in (f', put_object h f' (record s { aux = aux' })))

  abbrev pub object_synced : ℕ → Run D F A → Run D F A
  object_synced h none = none
  object_synced h (some (st, s)) = some (
    st,
    (if is_ok st then record s { store = sync_object h (get_elem? s.store h) s.store } else s),
  )

  abbrev pub sync_found : Bool → ℕ → ZenFs D F A → Option ZoneFile → Run D F A
  sync_found replace h s none = none
  sync_found replace h s (some f) =
      let (f', s') = stamp replace h f s in
      if f.is_deleted
      then some (ok, s)
      else object_synced h (persist_record (encode_file_record e.coding replace f') s')

  unfoldable pub sync_file_metadata_no_lock : Bool → ℕ → ZenFs D F A → Run D F A
  unfolding persist_record encode_file_record metadata_synced
  sync_file_metadata_no_lock replace h s = sync_found replace h s (get_elem? s.store h)
