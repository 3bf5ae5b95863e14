-- ===== src/Fs/Names.antt =====
-- The operations of `ZenFS` on the names of its files (fs/fs_zenfs.cc).
pub mod Maps
pub mod Keeps
pub mod Consistent
pub mod Deletes
pub mod Renames
pub mod Replaces
pub mod Adds
use zenfs.Base.{
  ℕ, zero, suc, Bool, true, false, not, Option, none, some, List, [], ◌∷◌, ◌++◌, length, get_elem?,
  if◌then◌else◌, ltb, ◌==◌,
}
use zenfs.Status.{Status, ok, corruption, invalid_argument, is_ok}
use zenfs.Device.Alloc.{reset_unused_io_zones}
use zenfs.File.{FileName, ZoneFile, add_link_name, rename_link, remove_link_name}
use zenfs.Fs.{
  Env, ZenFs, Run, and_then, put_object, get_file_no_lock, find_file, erase_file, insert_file,
  format_path, to_aux_path, drop_reference, drop_after, let_go_after, hold, let_go,
}
use zenfs.Fs.Log.{persist_record, sync_file_metadata_no_lock, encode_file_deletion}

module _ {D F A : Type 0} (e : Env D F A) where
  -- A call of `target()`.
  abbrev pub below : ZenFs D F A → Status × A → Run D F A
  below s (st, aux') = some (st, record s { aux = aux' })

  -- What becomes of the object `h`, whose name `fname` is gone, once its deletion record has been
  -- written or not.
  abbrev pub after_deletion : ℕ → FileName → Status → ZenFs D F A → Option ZoneFile → Run D F A
  after_deletion h fname st s none = none
  after_deletion h fname st s (some f) =
      if not (is_ok st)
      then some (
        st,
        put_object h (add_link_name fname f) (record s { files = insert_file fname h s.files }),
      )
      else if ltb 0 (length f.linkfiles)
      then some (st, s)
      else some (st, put_object h (record f { is_deleted = true }) s)

  abbrev pub deleted : ℕ → FileName → Run D F A → Run D F A
  deleted h fname none = none
  deleted h fname (some (st, s)) = after_deletion h fname st s (get_elem? s.store h)

  -- `DeleteFileNoLock` of the object `h` under the name `fname`, when the name is out of the map, and
  -- out of the object or not.
  abbrev pub delete_unlinked : FileName → ℕ → ZenFs D F A → Status × ZoneFile → Run D F A
  delete_unlinked fname h s (st, f) =
      if not (is_ok st)
      then some (st, s)
      else deleted h fname
          (persist_record e (encode_file_deletion e.coding f fname) (put_object h f s))

  abbrev pub delete_found : FileName → ℕ → ZenFs D F A → Option ZoneFile → Run D F A
  delete_found fname h s none = none
  delete_found fname h s (some f) =
      delete_unlinked fname h (record s { files = erase_file fname s.files })
        (remove_link_name fname f)

  unfoldable pub delete_object : FileName → ℕ → ZenFs D F A → Run D F A
  unfolding erase_file insert_file remove_link_name add_link_name persist_record
      encode_file_deletion
  delete_object fname h s = delete_found fname h s (get_elem? s.store h)

  -- `DeleteFileNoLock` of a name in its normal form, with the object that the map has for it.
  abbrev pub delete_named : FileName → ZenFs D F A → Option ℕ → Run D F A
  delete_named name s none = below s ((e.target).delete_file s.aux (to_aux_path e name s))
  delete_named name s (some h) = drop_after h (delete_object name h s)

  unfoldable pub delete_file_no_lock : FileName → ZenFs D F A → Run D F A
  unfolding get_file_no_lock delete_object drop_reference to_aux_path
  delete_file_no_lock fname s =
      delete_named (format_path e fname) s (get_file_no_lock e (format_path e fname) s)

  -- `if (s.ok()) s = zbd_->ResetUnusedIOZones()`.
  abbrev pub then_reset_unused : Run D F A → Run D F A
  then_reset_unused r = and_then r (λ s.
      let (st, zbd') = reset_unused_io_zones e.platform s.zbd in some (st, record s { zbd = zbd' }))

  unfoldable pub delete_file : FileName → ZenFs D F A → Run D F A
  unfolding delete_file_no_lock reset_unused_io_zones
  delete_file fname s = then_reset_unused (delete_file_no_lock fname s)

  -- A rename that could not be persisted is taken back; the status is that of taking it back.
  abbrev pub put_back : ℕ → FileName → ZenFs D F A → Status × ZoneFile → Run D F A
  put_back h source s (st, f) =
      if is_ok st
      then some (st, put_object h f (record s { files = insert_file source h s.files }))
      else some (st, put_object h f s)

  abbrev pub take_back : ℕ → FileName → FileName → ZenFs D F A → Option ZoneFile → Run D F A
  take_back h source dest s none = none
  take_back h source dest s (some f) =
      put_back h source (record s { files = erase_file dest s.files }) (rename_link dest source f)

  abbrev pub renamed : ℕ → FileName → FileName → Run D F A → Run D F A
  renamed h source dest none = none
  renamed h source dest (some (st, s)) =
      if is_ok st then some (st, s) else take_back h source dest s (get_elem? s.store h)

  -- `RenameFileNoLock` of an object, when the destination is free.
  abbrev pub move_linked : FileName → FileName → ℕ → ZenFs D F A → Status × ZoneFile → Run D F A
  move_linked source dest h s (st, f) =
      if not (is_ok st)
      then some (st, s)
      else renamed h source dest (
          sync_file_metadata_no_lock e false h
            (put_object h f (record s { files = insert_file dest h (erase_file source s.files) })))

  abbrev pub move_found : FileName → FileName → ℕ → ZenFs D F A → Option ZoneFile → Run D F A
  move_found source dest h s none = none
  move_found source dest h s (some f) = move_linked source dest h s (rename_link source dest f)

  unfoldable pub move_object : FileName → FileName → ℕ → ZenFs D F A → Run D F A
  unfolding erase_file insert_file rename_link sync_file_metadata_no_lock
  move_object source dest h s = move_found source dest h s (get_elem? s.store h)

  -- `RenameFileNoLock` of the object `h`. A local reference keeps an existing destination until the
  -- end.
  abbrev pub rename_onto : FileName → FileName → ℕ → ZenFs D F A → Option ℕ → Run D F A
  rename_onto source dest h s none = move_object source dest h s
  rename_onto source dest h s (some d) = let_go_after d (
      let_go_after h
        (and_then (delete_file_no_lock dest (hold d (hold h s))) (move_object source dest h)))

  unfoldable pub rename_object : FileName → FileName → ℕ → ZenFs D F A → Run D F A
  unfolding get_file_no_lock move_object delete_file_no_lock let_go
  rename_object source dest h s =
      drop_after h (rename_onto source dest h s (get_file_no_lock e dest s))

  -- A link that could not be persisted is taken back; the status is that of taking it back.
  abbrev pub unlink_back : ℕ → FileName → ZenFs D F A → Status × ZoneFile → Run D F A
  unlink_back h lname s (st, f) =
      if is_ok st
      then some (st, put_object h f (record s { files = erase_file lname s.files }))
      else some (st, put_object h f s)

  abbrev pub unlink_found : ℕ → FileName → ZenFs D F A → Option ZoneFile → Run D F A
  unlink_found h lname s none = none
  unlink_found h lname s (some f) = unlink_back h lname s (remove_link_name lname f)

  abbrev pub linked : ℕ → FileName → Run D F A → Run D F A
  linked h lname none = none
  linked h lname (some (st, s)) =
      if is_ok st then some (st, s) else unlink_found h lname s (get_elem? s.store h)

  abbrev pub link_found : FileName → ℕ → ZenFs D F A → Option ZoneFile → Run D F A
  link_found lname h s none = none
  link_found lname h s (some f) = linked h lname (
      sync_file_metadata_no_lock e false h
        (put_object h (add_link_name lname f) (record s { files = insert_file lname h s.files })))

  unfoldable pub link_object : FileName → ℕ → ZenFs D F A → Run D F A
  unfolding insert_file erase_file add_link_name remove_link_name sync_file_metadata_no_lock
  link_object lname h s = link_found lname h s (get_elem? s.store h)

  unfoldable pub link_file : FileName → FileName → ZenFs D F A → Run D F A
  unfolding get_file_no_lock link_object to_aux_path
  link_file file link s =
      let fname = format_path e file in
      let lname = format_path e link in
      elim (get_file_no_lock e lname s) [
        | some k ↦ some (invalid_argument, s)
        | none ↦ elim (get_file_no_lock e fname s) [
          | some h ↦ link_object lname h s
          | none ↦
              below s ((e.target).link_file s.aux (to_aux_path e fname s) (to_aux_path e lname s))
        ]
      ]

  unfoldable pub file_exists : FileName → ZenFs D F A → Status
  unfolding get_file_no_lock to_aux_path
  file_exists filename s =
      let fname = format_path e filename in
      elim (get_file_no_lock e fname s) [
        | none ↦ (e.target).file_exists s.aux (to_aux_path e fname s)
        | some h ↦ ok
      ]

  -- A query of an object of the map.
  abbrev ask {ℓ} : {B : Type ℓ} → (ZoneFile → B) → ℕ → ZenFs D F A → Option (Status × B)
  ask query h s = elim (get_elem? s.store h) [ none ↦ none | some f ↦ some (ok, query f) ]

  unfoldable pub num_file_links : FileName → ZenFs D F A → Option (Status × ℕ)
  unfolding get_file_no_lock to_aux_path
  num_file_links file s =
      let fname = format_path e file in
      elim (get_file_no_lock e fname s) [
        | none ↦ some ((e.target).num_file_links s.aux (to_aux_path e fname s))
        | some h ↦ ask (λ f. length f.linkfiles) h s
      ]

  unfoldable pub get_file_size : FileName → ZenFs D F A → Option (Status × ℕ)
  unfolding find_file to_aux_path
  get_file_size filename s =
      let f = format_path e filename in
      elim (find_file f s.files) [
        | none ↦ some ((e.target).get_file_size s.aux (to_aux_path e f s))
        | some h ↦ ask (λ o. o.file_size) h s
      ]

  unfoldable pub get_file_modification_time : FileName → ZenFs D F A → Option (Status × ℕ)
  unfolding find_file to_aux_path
  get_file_modification_time filename s =
      let f = format_path e filename in
      elim (find_file f s.files) [
        | none ↦ some ((e.target).get_file_modification_time s.aux (to_aux_path e f s))
        | some h ↦ ask (λ o. o.m_time) h s
      ]

  -- `AreFilesSame`; below, the names are passed on as they are.
  unfoldable pub are_files_same : FileName → FileName → ZenFs D F A → Option (Status × Bool)
  unfolding get_file_no_lock
  are_files_same file linkf s =
      let fname = format_path e file in
      let link = format_path e linkf in
      elim (get_file_no_lock e fname s) [
        | none ↦ some ((e.target).are_files_same s.aux fname link)
        | some h ↦ elim (get_file_no_lock e link s) [
          | none ↦ some ((e.target).are_files_same s.aux fname link)
          | some k ↦ elim (get_elem? s.store h) [
            | none ↦ none
            | some f ↦ ask (λ g. f.file_id == g.file_id) k s
          ]
        ]
      ]
