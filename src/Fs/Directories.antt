-- ===== src/Fs/Directories.antt =====
-- The operations of `ZenFS` on directories, which only `target()` has, and the renames that reach them
-- (fs/fs_zenfs.cc).
use zenfs.Base.{
  ℕ, zero, suc, Bool, true, false, not, ◌&&◌, none, some, List, [], ◌∷◌, ◌++◌, drop, length,
  if◌then◌else◌, ◌==◌,
}
use zenfs.Status.{Status, ok, not_found, corruption, is_ok}
use zenfs.Device.Alloc.{reset_unused_io_zones}
use zenfs.File.{FileName, name_eq}
use zenfs.Fs.{Env, ZenFs, Run, and_then, get_file_no_lock, format_path, to_aux_path}
use zenfs.Fs.Names.{then_reset_unused, below, delete_file_no_lock, rename_object}

abbrev is_not_found : Status → Bool
is_not_found not_found = true
is_not_found _ = false

unfoldable pub starts_with : FileName → FileName → Bool
starts_with string [] = true
starts_with [] (b ∷ needle) = false
starts_with (a ∷ string) (b ∷ needle) = a == b && starts_with string needle

-- `.` and `..` are left out.
unfoldable pub without_dots : List FileName → List FileName
without_dots [] = []
without_dots (f ∷ fs) =
    let rest = without_dots fs in
    if name_eq f (46 ∷ []) then rest else if name_eq f (46 ∷ 46 ∷ []) then rest else f ∷ rest

module _ {D F A : Type 0} (e : Env D F A) where
  abbrev with_separator_at_end : FileName → FileName
  with_separator_at_end path = (e.paths).lexically_normal ((e.paths).join path [])

  -- The loop of `GetZenFSChildrenNoLock`.
  unfoldable pub children_among : FileName → Bool → List (FileName × ℕ) → List FileName
  unfolding starts_with
  children_among dir include_grandchildren [] = []
  children_among dir include_grandchildren ((path, h) ∷ m) =
      let rest = children_among dir include_grandchildren m in
      let file_dir = with_separator_at_end ((e.paths).parent_path path) in
      if not (starts_with file_dir dir)
      then rest
      else if include_grandchildren
      then drop (length dir) path ∷ rest
      else if length file_dir == length dir
      then drop (length dir) path ∷ rest
      else rest

  unfoldable pub get_zenfs_children_no_lock : FileName → Bool → ZenFs D F A → List FileName
  unfolding children_among
  get_zenfs_children_no_lock dir include_grandchildren s =
      children_among (with_separator_at_end dir) include_grandchildren s.files

  unfoldable pub get_children_no_lock : FileName → ZenFs D F A → Status × List FileName
  unfolding get_zenfs_children_no_lock without_dots to_aux_path format_path
  get_children_no_lock dir_path s =
      let dir = format_path e dir_path in
      let (st, auxfiles) = (e.target).get_children s.aux (to_aux_path e dir s) in
      if is_ok st
      then (ok, without_dots auxfiles ++ get_zenfs_children_no_lock dir false s)
      else ((if is_not_found st then ok else st), [])

  unfoldable pub is_directory_no_lock : FileName → ZenFs D F A → Status × Bool
  unfolding get_file_no_lock to_aux_path
  is_directory_no_lock path s = elim (get_file_no_lock e path s) [
    | none ↦ (e.target).is_directory s.aux (to_aux_path e path s)
    | some h ↦ (ok, false)
  ]

  -- The loop of `DeleteDirRecursiveNoLock`; `delete_child` deletes a directory below.
  unfoldable pub delete_children :
      (FileName → ZenFs D F A → Run D F A) → FileName → List FileName → ZenFs D F A → Run D F A
  unfolding is_directory_no_lock delete_file_no_lock
  delete_children delete_child d [] s = some (ok, s)
  delete_children delete_child d (child ∷ children) s =
      let file_to_delete = (e.paths).join d child in
      let (st, is_dir) = is_directory_no_lock file_to_delete s in
      if not (is_ok st)
      then some (st, s)
      else and_then
          (if is_dir then delete_child file_to_delete s else delete_file_no_lock e file_to_delete s)
          (delete_children delete_child d children)

  -- Fuel: the depth of the tree of directories.
  unfoldable pub delete_dir_recursive_no_lock : ℕ → FileName → ZenFs D F A → Run D F A
  unfolding get_children_no_lock delete_children
  delete_dir_recursive_no_lock zero dir s = none
  delete_dir_recursive_no_lock (suc depth) dir s =
      let d = format_path e dir in
      let (st, children) = get_children_no_lock d s in
      if not (is_ok st)
      then some (st, s)
      else and_then (delete_children (delete_dir_recursive_no_lock depth) d children s)
          (λ t. below e t ((e.target).delete_dir t.aux (to_aux_path e d t)))

  unfoldable pub delete_dir_recursive : ℕ → FileName → ZenFs D F A → Run D F A
  unfolding delete_dir_recursive_no_lock reset_unused_io_zones
  delete_dir_recursive depth dir s = then_reset_unused e (delete_dir_recursive_no_lock depth dir s)

  -- `RenameChildNoLock`, with the rename of a file as `rename`.
  abbrev rename_child :
      (FileName → FileName → ZenFs D F A → Run D F A)
      → FileName
      → FileName
      → FileName
      → ZenFs D F A
      → Run D F A
  rename_child rename source_dir dest_dir child s =
      rename ((e.paths).join source_dir child) ((e.paths).join dest_dir child) s

  abbrev corruption_unless_ok : Run D F A → (ZenFs D F A → Run D F A) → Run D F A
  corruption_unless_ok none k = none
  corruption_unless_ok (some (st, s)) k = if is_ok st then k s else some (corruption, s)

  unfoldable pub rollback_children :
      (FileName → FileName → ZenFs D F A → Run D F A)
      → FileName
      → FileName
      → List FileName
      → ZenFs D F A
      → Run D F A
  rollback_children rename source_path dest_path [] s =
      corruption_unless_ok
        (below e s
          ((e.target).rename_file s.aux (to_aux_path e dest_path s) (to_aux_path e source_path s)))
        (λ t. some (ok, t))
  rollback_children rename source_path dest_path (child ∷ children) s =
      corruption_unless_ok (rename_child rename dest_path source_path child s)
        (rollback_children rename source_path dest_path children)

  -- After a failed rename of a child: its status, or that of a failed rollback.
  abbrev rolled_back : Status → Run D F A → Run D F A
  rolled_back failed_rename none = none
  rolled_back failed_rename (some (st, s)) =
      if is_ok st then some (failed_rename, s) else some (st, s)

  -- The loop of `RenameAuxPathNoLock`; `done` are the children that are renamed already.
  abbrev or_roll_back :
      Run D F A → (ZenFs D F A → Run D F A) → (ZenFs D F A → Run D F A) → Run D F A
  or_roll_back none rollback next = none
  or_roll_back (some (st, s)) rollback next =
      if is_ok st then next s else rolled_back st (rollback s)

  unfoldable pub rename_children :
      (FileName → FileName → ZenFs D F A → Run D F A)
      → FileName
      → FileName
      → List FileName
      → List FileName
      → ZenFs D F A
      → Run D F A
  unfolding rollback_children
  rename_children rename source_path dest_path done [] s = some (ok, s)
  rename_children rename source_path dest_path done (child ∷ children) s =
      or_roll_back (rename_child rename source_path dest_path child s)
        (rollback_children rename source_path dest_path done)
        (rename_children rename source_path dest_path (done ++ child ∷ []) children)

  unfoldable pub rename_aux_path_no_lock :
      (FileName → FileName → ZenFs D F A → Run D F A)
      → FileName
      → FileName
      → ZenFs D F A
      → Run D F A
  unfolding rename_children get_zenfs_children_no_lock
  rename_aux_path_no_lock rename source_path dest_path s =
      and_then
        (below e s
          ((e.target).rename_file s.aux (to_aux_path e source_path s) (to_aux_path e dest_path s)))
        (λ t.
          rename_children rename source_path dest_path []
            (get_zenfs_children_no_lock source_path true t) t)

  -- Fuel: a rename of a directory renames the files in it.
  unfoldable pub rename_file_no_lock : ℕ → FileName → FileName → ZenFs D F A → Run D F A
  unfolding get_file_no_lock rename_object rename_aux_path_no_lock
  rename_file_no_lock zero src_path dst_path s = none
  rename_file_no_lock (suc depth) src_path dst_path s =
      let source_path = format_path e src_path in
      let dest_path = format_path e dst_path in
      elim (get_file_no_lock e source_path s) [
        | none ↦ rename_aux_path_no_lock (rename_file_no_lock depth) source_path dest_path s
        | some h ↦ rename_object e source_path dest_path h s
      ]

  unfoldable pub rename_file : ℕ → FileName → FileName → ZenFs D F A → Run D F A
  unfolding rename_file_no_lock reset_unused_io_zones
  rename_file depth source_path dest_path s =
      then_reset_unused e (rename_file_no_lock depth source_path dest_path s)
