-- ===== src/Fs/Names/Deletes.antt =====
-- `DeleteFileNoLock` (fs/fs_zenfs.cc) on the names of files.
use zenfs.Base.{ℕ, ◌+◌, ◌≡◌, none, some, List, get_elem?, if◌then◌else◌}
use zenfs.Status.{Status, is_ok}
use zenfs.File.{FileName, ZoneFile, name_eq}
use zenfs.File.Links.{times, one_if}
use zenfs.Fs.{Env, ZenFs, put_object, erase_file}
use zenfs.Zone.Valid.{WritesSome}
use zenfs.Fs.Log.Returns.{IsMounted}
use zenfs.Fs.Names.Keeps.{Keeps}
use zenfs.Fs.Names.Consistent.{Consistent, lookup}

module _ {D F A : Type 0} where
  -- The name is gone if the status is good, and else all names are as before.
  pub record Deleted (name : FileName) (s : ZenFs D F A) (st : Status) (t : ZenFs D F A)
      : Type 0 where
    pub consistent : Consistent t
    pub mounted : IsMounted t
    pub names :
        (n : FileName)
        → lookup t n
          ≡ (if is_ok st then (if name_eq name n then none else lookup s n) else lookup s n)

-- The name of an object, out of it and back in.
module _ {D F A : Type 0} (e : Env D F A) (w : WritesSome (e.platform).backend) (name : FileName)
    (h : ℕ) (s : ZenFs D F A) (c : Consistent s) (m : IsMounted s)
    (found : lookup s name ≡ some h) where
  module _ (f : ZoneFile) (l : List FileName) (at : get_elem? s.store h ≡ some f)
      (erased : (n : FileName) → times n f.linkfiles ≡ one_if name n + times n l) where
    abbrev unlinked : ZenFs D F A
    unlinked =
        put_object h (record f { linkfiles = l }) (record s { files = erase_file name s.files })
