-- ===== src/Fs/Names/Adds.antt =====
-- `LinkFile` and the creation of files (fs/fs_zenfs.cc) on the names of files.
use zenfs.Base.{ℕ, ◌≡◌, ◌⊎◌, true, none, some, if◌then◌else◌}
use zenfs.Status.{Status, is_ok}
use zenfs.File.{FileName, ZoneFile, name_eq, add_link_name}
use zenfs.Zone.Valid.{WritesSome}
use zenfs.Fs.Log.Returns.{IsMounted}
use zenfs.Fs.{Env, ZenFs, put_object, insert_file}
use zenfs.Fs.Names.Keeps.{Keeps}
use zenfs.Fs.Names.Consistent.{Consistent, lookup}

module _ {D F A : Type 0} where
  -- After a link: the status is good, and the name stands for the object, or for nothing as before.
  pub record Linked (name : FileName) (h : ℕ) (s : ZenFs D F A) (st : Status) (t : ZenFs D F A)
      : Type 0 where
    pub consistent : Consistent t
    pub good : is_ok st ≡ true
    pub names :
        ((n : FileName) → lookup t n ≡ (if name_eq name n then some h else lookup s n))
        ⊎ ((n : FileName) → lookup t n ≡ lookup s n)

  module _ (e : Env D F A) (w : WritesSome (e.platform).backend) (name : FileName) (h : ℕ)
      (s : ZenFs D F A) (c : Consistent s) (m : IsMounted s) (absent : lookup s name ≡ none) where
    abbrev with_link : ZoneFile → ZenFs D F A
    with_link f =
        put_object h (add_link_name name f) (record s { files = insert_file name h s.files })
