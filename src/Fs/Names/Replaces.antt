-- ===== src/Fs/Names/Replaces.antt =====
-- `RenameFileNoLock` (fs/fs_zenfs.cc) on the names of files, when the destination can be there.
use zenfs.Base.{ℕ, ◌≡◌, ◌⊎◌, true, false, none, if◌then◌else◌}
use zenfs.Status.{Status, is_ok}
use zenfs.File.{FileName, name_eq}
use zenfs.Fs.{ZenFs}
use zenfs.Fs.Names.Keeps.{Keeps}
use zenfs.Fs.Names.Consistent.{Consistent, lookup}
use zenfs.Fs.Names.Renames.{moved_to}

module _ {D F A : Type 0} where
  -- After a rename: the name is moved with a good status; or nothing has changed, with a bad one; or,
  -- with a good status, what stood at the destination is gone, and nothing is moved.
  pub record Renamed (source dest : FileName) (h : ℕ) (s : ZenFs D F A) (st : Status)
      (t : ZenFs D F A) : Type 0 where
    pub consistent : Consistent t
    pub names :
        ((is_ok st ≡ true) × ((n : FileName) → lookup t n ≡ moved_to source dest h s n))
        ⊎ (((is_ok st ≡ false) × ((n : FileName) → lookup t n ≡ lookup s n))
            ⊎ ((is_ok st ≡ true)
                × ((n : FileName) → lookup t n ≡ (if name_eq dest n then none else lookup s n))))
