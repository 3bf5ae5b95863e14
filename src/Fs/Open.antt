-- ===== src/Fs/Open.antt =====
-- Opening files of `ZenFS` (fs/fs_zenfs.cc). A handle for reading or writing is held by its user.
use zenfs.Base.{
  ℕ, Bool, true, false, not, Option, none, some, [], ◌∷◌, length, get_elem?, if◌then◌else◌,
}
use zenfs.Base.Words.{add64}
use zenfs.Status.{Status, ok, not_found, is_ok}
use zenfs.Device.Alloc.{reset_unused_io_zones}
use zenfs.File.{FileName, ZoneFile, wal, new_file, add_link_name, try_acquire_wr_lock}
use zenfs.File.Read.{SequentialFile, new_sequential_file, new_random_access_file}
use zenfs.File.Writable.{WritableFile, new_writable_file}
use zenfs.Fs.{
  Env, ZenFs, Run, put_object, make_object, unmake_object, get_file_no_lock, find_file, insert_file,
  format_path, to_aux_path, hold, let_go, let_go_after, ends_with,
}
use zenfs.Fs.Log.{sync_file_metadata_no_lock}
use zenfs.Fs.Names.{delete_file_no_lock, delete_file}

-- The status, the handle with the object that it is for, and the state.
abbrev pub Opened : Type 0 → Type 0 → Type 0 → Type 0 → Type 0
Opened H D F A = Option (Status × Option (ℕ × H) × ZenFs D F A)

-- `.log`.
abbrev pub log_ending : FileName
log_ending = 46 ∷ 108 ∷ 111 ∷ 103 ∷ []

module _ {D F A : Type 0} (e : Env D F A) where
  abbrev open_below : {H : Type 0} → FileName → ZenFs D F A → Opened H D F A
  open_below fname s =
      let (st, aux') = (e.target).open_for_read s.aux (to_aux_path e fname s) in
      some (st, none, record s { aux = aux' })

  unfoldable pub open_sequential_file : FileName → Bool → ZenFs D F A → Opened SequentialFile D F A
  unfolding get_file_no_lock to_aux_path new_sequential_file
  open_sequential_file filename use_direct_reads s =
      let fname = format_path e filename in
      elim (get_file_no_lock e fname s) [
        | none ↦ open_below fname s
        | some h ↦ elim (get_elem? s.store h) [
          | none ↦ none
          | some f ↦ some (ok, some (h, new_sequential_file use_direct_reads f), hold h s)
        ]
      ]

  -- The object is looked up once more, as `files_[fname]`.
  unfoldable pub open_random_access_file : FileName → Bool → ZenFs D F A → Opened Bool D F A
  unfolding get_file_no_lock find_file to_aux_path new_random_access_file
  open_random_access_file filename use_direct_reads s =
      let fname = format_path e filename in
      elim (get_file_no_lock e fname s) [
        | none ↦ open_below fname s
        | some k ↦ elim (find_file fname s.files) [
          | none ↦ none
          | some h ↦ elim (get_elem? s.store h) [
            | none ↦ none
            | some f ↦ some (ok, some (h, new_random_access_file use_direct_reads f), hold h s)
          ]
        ]
      ]

  -- A handle for the object `h`. `none`: `AcquireWRLock` waits for another writer.
  abbrev write_handle : Bool → ℕ → ZenFs D F A → Opened WritableFile D F A
  write_handle use_direct_writes h s = elim (get_elem? s.store h) [
    | none ↦ none
    | some f ↦
        let (got, f') = try_acquire_wr_lock f in
        if got
        then some (
          ok,
          some (h, new_writable_file (e.platform).block_size (not use_direct_writes) f'),
          hold h (put_object h f' s),
        )
        else none
  ]

  -- The type of a new file, by its name.
  unfoldable pub typed_file : FileName → Bool → ZoneFile → ZoneFile
  unfolding ends_with
  typed_file fname use_direct_writes f =
      if ends_with log_ending fname
      then record f { io_type = wal; is_sparse = not use_direct_writes }
      else f

  abbrev created : FileName → Bool → ℕ → Run D F A → Opened WritableFile D F A
  created fname use_direct_writes h none = none
  created fname use_direct_writes h (some (st, s)) =
      if is_ok st
      then write_handle use_direct_writes h (record s { files = insert_file fname h s.files })
      else some (st, none, unmake_object s)

  unfoldable pub create_file : FileName → Bool → ZenFs D F A → Opened WritableFile D F A
  unfolding new_file add_link_name typed_file sync_file_metadata_no_lock insert_file
      try_acquire_wr_lock new_writable_file
  create_file fname use_direct_writes s =
      let h = length s.store in
      let (now, aux') = e.time s.aux in
      let named = add_link_name fname (record (new_file s.next_file_id) { m_time = now }) in
      let numbered = record s { aux = aux'; next_file_id = add64 s.next_file_id 1 } in
      created fname use_direct_writes h (
        sync_file_metadata_no_lock e false h
          (make_object (typed_file fname use_direct_writes named) numbered))

  -- `if (resetIOZones) s = zbd_->ResetUnusedIOZones()`.
  abbrev then_reset : Opened WritableFile D F A → Opened WritableFile D F A
  then_reset none = none
  then_reset (some (st, none, s)) = some (st, none, s)
  then_reset (some (st, some w, s)) =
      let (st', zbd') = reset_unused_io_zones e.platform s.zbd in
      some (st', some w, record s { zbd = zbd' })

  abbrev in_place_of : FileName → Bool → Run D F A → Opened WritableFile D F A
  in_place_of fname use_direct_writes none = none
  in_place_of fname use_direct_writes (some (st, s)) =
      if is_ok st then then_reset (create_file fname use_direct_writes s) else some (st, none, s)

  unfoldable pub open_writable_file :
      FileName → Bool → Bool → ZenFs D F A → Opened WritableFile D F A
  unfolding get_file_no_lock delete_file_no_lock create_file let_go reset_unused_io_zones
  open_writable_file filename use_direct_writes reopen s =
      let fname = format_path e filename in
      elim (get_file_no_lock e fname s) [
        | none ↦ create_file fname use_direct_writes s
        | some h ↦
            if reopen
            then write_handle use_direct_writes h s
            else in_place_of fname use_direct_writes
                (let_go_after h (delete_file_no_lock e fname (hold h s)))
      ]

  unfoldable pub new_writable : FileName → Bool → ZenFs D F A → Opened WritableFile D F A
  unfolding open_writable_file
  new_writable filename use_direct_writes s =
      open_writable_file (format_path e filename) use_direct_writes false s

  unfoldable pub reopen_writable_file : FileName → Bool → ZenFs D F A → Opened WritableFile D F A
  unfolding open_writable_file
  reopen_writable_file filename use_direct_writes s =
      open_writable_file (format_path e filename) use_direct_writes true s

  abbrev reused : FileName → Bool → Run D F A → Opened WritableFile D F A
  reused fname use_direct_writes none = none
  reused fname use_direct_writes (some (st, s)) =
      if is_ok st then open_writable_file fname use_direct_writes false s else some (st, none, s)

  unfoldable pub reuse_writable_file :
      FileName → FileName → Bool → ZenFs D F A → Opened WritableFile D F A
  unfolding get_file_no_lock delete_file open_writable_file
  reuse_writable_file filename old_filename use_direct_writes s =
      let fname = format_path e filename in
      let old_fname = format_path e old_filename in
      elim (get_file_no_lock e old_fname s) [
        | none ↦ some (not_found, none, s)
        | some h ↦ reused fname use_direct_writes (delete_file e old_fname s)
      ]
