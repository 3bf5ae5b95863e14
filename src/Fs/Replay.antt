-- ===== src/Fs/Replay.antt =====
-- Reading the metadata log back (fs/fs_zenfs.cc): the records of files, snapshots and reset counters,
-- and `RecoverFrom`.
pub mod Deletion
use zenfs.Base.{
  ℕ, zero, suc, Bool, true, false, not, ◌||◌, Option, none, some, List, [], ◌∷◌, ◌++◌, length,
  get_elem?, if◌then◌else◌, ltb, leb, ◌==◌,
}
use zenfs.Base.Words.{add64}
use zenfs.Status.{Status, ok, corruption, not_found, is_ok}
use zenfs.Zone.{Zone}
use zenfs.Device.State.{Zbd, set_total_reset_count}
use zenfs.Device.Space.{set_io_zones_reset_count}
use zenfs.MetaLog.{MetaLog, ReadResult, read_record}
use zenfs.File.{FileName, ZoneFile, new_file, clear_extents, merge_update, remove_link_name}
use zenfs.File.Format.{decode_file}
use zenfs.Fs.Tag
use zenfs.Fs.{
  Env, ZenFs, Run, and_then, put_object, make_object, find_file, erase_file, insert_file,
  drop_reference, drop_after, clear_files,
}
use zenfs.Device.Space.{nr_io_zones}

-- The first file of the map with an id.
unfoldable pub find_id : ℕ → List ZoneFile → List (FileName × ℕ) → Option ℕ
find_id id store [] = none
find_id id store ((n, h) ∷ m) =
    let rest = find_id id store m in
    elim (get_elem? store h) [ none ↦ rest | some f ↦ if f.file_id == id then some h else rest ]

-- The names of a file go out of the map; it ends at a name that is not there.
unfoldable pub erase_links : List FileName → List (FileName × ℕ) → Bool × List (FileName × ℕ)
unfolding find_file erase_file
erase_links [] files = (true, files)
erase_links (n ∷ ns) files =
    let rest = erase_links ns (erase_file n files) in
    elim (find_file n files) [ none ↦ (false, files) | some h ↦ rest ]

unfoldable pub insert_links : List FileName → ℕ → List (FileName × ℕ) → List (FileName × ℕ)
unfolding insert_file
insert_links [] h files = files
insert_links (n ∷ ns) h files = insert_links ns h (insert_file n h files)

module _ {D F A : Type 0} (e : Env D F A) where
  -- `next_file_id_` stays above the ids that were read.
  abbrev pub after_id : ℕ → ZenFs D F A → ZenFs D F A
  after_id id s = record s {
    next_file_id = if leb s.next_file_id id then add64 id 1 else s.next_file_id;
  }

  -- `~ZoneFile` of an object that is not in the store.
  abbrev destroyed : ZoneFile → ZenFs D F A → ZenFs D F A
  destroyed update s = record s { zbd = (clear_extents update s.zbd).1 }

  -- The update `update` to the object `h`.
  unfoldable pub update_object : ZoneFile → Bool → ℕ → ZenFs D F A → Run D F A
  unfolding erase_links insert_links merge_update clear_extents
  update_object update replace h s = elim (get_elem? s.store h) [
    | none ↦ none
    | some f ↦
        let (found, files) = erase_links f.linkfiles s.files in
        let erased = record s { files = files } in
        if not found
        then some (corruption, destroyed update erased)
        else (let (st, f', zbd') = merge_update update replace f s.zbd in
            let merged = destroyed update (put_object h f' (record erased { zbd = zbd' })) in
            if is_ok st
            then some (ok, record merged { files = insert_links f'.linkfiles h merged.files })
            else some (st, merged))
  ]

  -- A new file goes into the map by its first name. `none`: it has no name.
  unfoldable pub add_object : ZoneFile → ZenFs D F A → Run D F A
  unfolding insert_file drop_reference
  add_object update s = elim update.linkfiles [
    | [] ↦ none
    | name ∷ _ ↦
        let h = length s.store in
        let s' = make_object update s in
        some (ok, drop_reference h (record s' { files = insert_file name h s'.files }))
  ]

  unfoldable pub decode_file_update_from : ℕ → List ℕ → Bool → ZenFs D F A → Run D F A
  unfolding decode_file new_file update_object add_object find_id drop_reference
  decode_file_update_from fuel slice replace s =
      elim (decode_file e.coding e.platform fuel (new_file 0) slice s.zbd) [
        | none ↦ none
        | some (st, update, zbd') ↦
            let s' = record s { zbd = zbd' } in
            if not (is_ok st)
            then some (st, destroyed update s')
            else (let s'' = after_id update.file_id s' in
                elim (find_id update.file_id s''.store s''.files) [
                  | none ↦ add_object update s''
                  | some h ↦ drop_after h (update_object update replace h s'')
                ])
      ]

  -- The loop of `DecodeSnapshotFrom`.
  unfoldable pub decode_snapshot_from : ℕ → List ℕ → ZenFs D F A → Run D F A
  unfolding decode_file new_file insert_links drop_reference
  decode_snapshot_from zero input s = none
  decode_snapshot_from (suc fuel) input s = elim ((e.coding).get_length_prefixed_slice input) [
    | none ↦ some (ok, s)
    | some (slice, rest) ↦
        elim (decode_file e.coding e.platform (suc fuel) (new_file 0) slice s.zbd) [
          | none ↦ none
          | some (st, f, zbd') ↦
              let s' = record s { zbd = zbd' } in
              if not (is_ok st)
              then some (st, destroyed f s')
              else (let h = length s'.store in
                  let s'' = make_object f (after_id f.file_id s') in
                  decode_snapshot_from fuel rest (
                    drop_reference h (record s'' { files = insert_links f.linkfiles h s''.files })))
        ]
  ]

  -- The end of `DecodeFileDeletionFrom`, once the id and the name are read.
  unfoldable pub replay_deletion : ℕ → FileName → ZenFs D F A → Run D F A
  unfolding find_file erase_file remove_link_name drop_reference
  replay_deletion file_id file_name s = elim (find_file file_name s.files) [
    | none ↦ some (corruption, s)
    | some h ↦ elim (get_elem? s.store h) [
      | none ↦ none
      | some f ↦
          if not (f.file_id == file_id)
          then some (corruption, s)
          else (let (st, f') = remove_link_name file_name f in
              some (
                (if is_ok st then ok else corruption),
                drop_reference h
                    (put_object h f' (record s { files = erase_file file_name s.files })),
              ))
    ]
  ]

  unfoldable pub decode_file_deletion_from : List ℕ → ZenFs D F A → Run D F A
  unfolding replay_deletion
  decode_file_deletion_from input s = elim ((e.coding).get_fixed64 input) [
    | none ↦ some (corruption, s)
    | some (file_id, rest) ↦ elim ((e.coding).get_length_prefixed_slice rest) [
      | none ↦ some (corruption, s)
      | some (file_name, rest') ↦ replay_deletion file_id file_name s
    ]
  ]

  -- `n` counts; `none` if there are fewer.
  unfoldable pub get_counts : ℕ → List ℕ → Option (List ℕ)
  get_counts zero slice = some []
  get_counts (suc n) slice = elim ((e.coding).get_fixed32 slice) [
    | none ↦ none
    | some (count, rest) ↦ elim (get_counts n rest) [ none ↦ none | some l ↦ some (count ∷ l) ]
  ]

  -- `none`: there are more io zones than `GetNrIOZones`, and the array is read past its end.
  unfoldable pub decode_io_zone_reset_count_from : List ℕ → ZenFs D F A → Run D F A
  unfolding get_counts set_io_zones_reset_count set_total_reset_count
  decode_io_zone_reset_count_from slice s =
      elim (get_counts (nr_io_zones (e.platform).nr_zones) slice) [
        | none ↦ some (corruption, s)
        | some counts ↦
            if ltb (length counts) (length s.zbd.io_zones)
            then none
            else some (
              ok,
              record s { zbd = set_total_reset_count (set_io_zones_reset_count counts s.zbd) },
            )
      ]

  -- The record with the tag `tag`, but for the end record.
  unfoldable pub replay_record : ℕ → ℕ → List ℕ → ZenFs D F A → Run D F A
  unfolding clear_files decode_snapshot_from decode_file_update_from decode_file_deletion_from
      decode_io_zone_reset_count_from
  replay_record fuel tag body s =
      if tag == Tag.io_zone_reset_count
      then decode_io_zone_reset_count_from body s
      else elim ((e.coding).get_length_prefixed_slice body) [
        | none ↦ some (corruption, s)
        | some (data_, rest) ↦
            if tag == Tag.complete_files_snapshot
            then decode_snapshot_from fuel data_ (clear_files s)
            else if tag == Tag.file_update
            then decode_file_update_from fuel data_ false s
            else if tag == Tag.file_replace
            then decode_file_update_from fuel data_ true s
            else if tag == Tag.file_deletion
            then decode_file_deletion_from data_ s
            else some (corruption, s)
      ]

  abbrev pub Recovered : Type 0
  Recovered = Option (Status × MetaLog × ZenFs D F A)

  abbrev after_replay : Run D F A → MetaLog → (ZenFs D F A → Recovered) → Recovered
  after_replay none log k = none
  after_replay (some (st, s)) log k = if is_ok st then k s else some (st, log, s)

  -- The loop of `RecoverFrom`; `seen` is `at_least_one_snapshot`.
  unfoldable pub recover_from_loop : ℕ → Bool → MetaLog → ZenFs D F A → Recovered
  unfolding read_record replay_record
  recover_from_loop zero seen log s = none
  recover_from_loop (suc fuel) seen log s = elim (get_elem? s.zbd.meta_zones log.zone) [
    | none ↦ none
    | some z ↦ elim (read_record e.coding e.platform (suc fuel) z log s.zbd.dev) [
      | none ↦ none
      | some r ↦
          let log' = record log { read_pos = r.read_pos } in
          let s' = record s { zbd = record (s.zbd) { dev = r.dev } } in
          let verdict = (if seen then ok else not_found) in
          if not (is_ok r.status)
          then some (corruption, log', s')
          else elim ((e.coding).get_fixed32 r.slice) [
            | none ↦ some (verdict, log', s')
            | some (tag, body) ↦
                if tag == Tag.end_record
                then some (verdict, log', s')
                else after_replay (replay_record (suc fuel) tag body s') log'
                    (recover_from_loop fuel (seen || tag == Tag.complete_files_snapshot) log')
          ]
    ]
  ]

  unfoldable pub recover_from : ℕ → MetaLog → ZenFs D F A → Recovered
  unfolding recover_from_loop
  recover_from fuel log s = recover_from_loop fuel false log s
