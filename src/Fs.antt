-- ===== src/Fs.antt =====
-- The class `ZenFS` of fs/fs_zenfs.h: its state, the map of files, and what stands outside it, the
-- file system below (`target()`), the paths of `fs::path`, and the clock.
pub mod Tag
pub mod Log
pub mod Names
pub mod Directories
pub mod Open
pub mod Replay
pub mod Mount
pub mod Migrate
use zenfs.Base.{
  ℕ, ◌-◌, Bool, true, false, not, ◌||◌, Option, none, some, List, [], ◌∷◌, ◌++◌, take, length,
  get_elem?, set, if◌then◌else◌, ltb, ◌==◌,
}
use Prim.Native.Nat.{pred}
use zenfs.Status.{Status, is_ok}
use zenfs.Platform.{Platform}
use zenfs.Coding.{Coding}
use zenfs.Device.State.{Zbd}
use zenfs.Superblock.{Superblock}
use zenfs.MetaLog.{MetaLog}
use zenfs.File.{FileName, ZoneFile, name_eq, clear_extents}

-- `target()`: the file system that holds everything but the files of ZenFS. `A` is its state.
pub record Target (A : Type 0) : Type 0 where
  pub delete_file : A → FileName → Status × A
  pub rename_file : A → FileName → FileName → Status × A
  pub link_file : A → FileName → FileName → Status × A
  pub file_exists : A → FileName → Status
  pub num_file_links : A → FileName → Status × ℕ
  pub are_files_same : A → FileName → FileName → Status × Bool
  pub get_children : A → FileName → Status × List FileName
  pub is_directory : A → FileName → Status × Bool
  pub delete_dir : A → FileName → Status × A
  pub create_dir_if_missing : A → FileName → Status × A
  pub open_for_read : A → FileName → Status × A
  pub get_file_size : A → FileName → Status × ℕ
  pub get_file_modification_time : A → FileName → Status × ℕ

-- `fs::path`: normal form, `/`, and the directory of a path.
pub record Paths : Type 0 where
  pub lexically_normal : FileName → FileName
  pub join : FileName → FileName → FileName
  pub parent_path : FileName → FileName

pub record Env (D F A : Type 0) : Type 0 where
  pub coding : Coding
  pub platform : Platform D F
  pub target : Target A
  pub paths : Paths
  -- `time(0)`.
  pub time : A → ℕ × A
  -- What an entry of a new array holds before it is set.
  pub memory : ℕ → ℕ

-- A `ZoneFile *` is a position in `store`. `files` is `files_` in the order of the names, `held` has
-- the objects that something else than the map refers to, and `aux` is the state of `target()`.
pub record ZenFs (D F A : Type 0) : Type 0 where
  pub zbd : Zbd D F
  pub store : List ZoneFile
  pub files : List (FileName × ℕ)
  pub held : List ℕ
  pub next_file_id : ℕ
  pub meta_log : Option MetaLog
  pub superblock : Option Superblock
  pub run_gc_worker : Bool
  pub aux : A

-- What a call gives; `none` if it does not return, or follows a null pointer.
abbrev pub Run : Type 0 → Type 0 → Type 0 → Type 0
Run D F A = Option (Status × ZenFs D F A)

-- The order of names, byte by byte.
unfoldable pub name_lt : FileName → FileName → Bool
name_lt [] [] = false
name_lt [] (b ∷ m) = true
name_lt (a ∷ l) [] = false
name_lt (a ∷ l) (b ∷ m) = if ltb a b then true else if a == b then name_lt l m else false

-- `files_.find`, `files_.erase` and `files_.insert`, which keeps the entry of a name that is there.
unfoldable pub find_file : FileName → List (FileName × ℕ) → Option ℕ
find_file name [] = none
find_file name ((n, h) ∷ m) = if name_eq n name then some h else find_file name m

unfoldable pub erase_file : FileName → List (FileName × ℕ) → List (FileName × ℕ)
erase_file name [] = []
erase_file name ((n, h) ∷ m) =
    let rest = erase_file name m in if name_eq n name then rest else (n, h) ∷ rest

unfoldable pub insert_file : FileName → ℕ → List (FileName × ℕ) → List (FileName × ℕ)
unfolding name_lt
insert_file name h [] = (name, h) ∷ []
insert_file name h ((n, k) ∷ m) =
    let rest = insert_file name h m in
    if name_eq n name
    then (n, k) ∷ m
    else if name_lt name n
    then (name, h) ∷ (n, k) ∷ m
    else (n, k) ∷ rest

-- The test for the ending of a name.
unfoldable pub ends_with : FileName → FileName → Bool
ends_with ending [] = name_eq [] ending
ends_with ending (b ∷ value) = name_eq (b ∷ value) ending || ends_with ending value

abbrev pub member : ℕ → List ℕ → Bool
member h [] = false
member h (k ∷ ks) = k == h || member h ks

abbrev pub remove_one : ℕ → List ℕ → List ℕ
remove_one h [] = []
remove_one h (k ∷ ks) = if k == h then ks else k ∷ remove_one h ks

abbrev pub handles : List (FileName × ℕ) → List ℕ
handles [] = []
handles ((n, h) ∷ m) = h ∷ handles m

-- A C string ends at the first zero.
abbrev pub c_string : List ℕ → List ℕ
c_string [] = []
c_string (b ∷ bs) = if b == 0 then [] else b ∷ c_string bs

module _ {D F A : Type 0} where
  abbrev pub and_then : Run D F A → (ZenFs D F A → Run D F A) → Run D F A
  and_then none k = none
  and_then (some (st, s)) k = if is_ok st then k s else some (st, s)

  abbrev pub get_object : ℕ → ZenFs D F A → Option ZoneFile
  get_object h s = get_elem? s.store h

  abbrev pub put_object : ℕ → ZoneFile → ZenFs D F A → ZenFs D F A
  put_object h f s = record s { store = set s.store h f }

  -- The last reference to an object may be gone: then `~ZoneFile` clears its extents.
  abbrev pub destroy : ℕ → Option ZoneFile → ZenFs D F A → ZenFs D F A
  destroy h none s = s
  destroy h (some f) s =
      let (f', zbd') = clear_extents f s.zbd in put_object h f' (record s { zbd = zbd' })

  unfoldable pub drop_reference : ℕ → ZenFs D F A → ZenFs D F A
  unfolding clear_extents
  drop_reference h s =
      if member h (handles s.files) || member h s.held then s else destroy h (get_elem? s.store h) s

  abbrev pub hold : ℕ → ZenFs D F A → ZenFs D F A
  hold h s = record s { held = h ∷ s.held }

  unfoldable pub let_go : ℕ → ZenFs D F A → ZenFs D F A
  unfolding drop_reference
  let_go h s = drop_reference h (record s { held = remove_one h s.held })

  -- A local `shared_ptr` ends with the call.
  abbrev pub drop_after : ℕ → Run D F A → Run D F A
  drop_after h none = none
  drop_after h (some (st, s)) = some (st, drop_reference h s)

  abbrev pub let_go_after : ℕ → Run D F A → Run D F A
  let_go_after h none = none
  let_go_after h (some (st, s)) = some (st, let_go h s)

  unfoldable pub drop_references : List ℕ → ZenFs D F A → ZenFs D F A
  unfolding drop_reference
  drop_references [] s = s
  drop_references (h ∷ hs) s = drop_references hs (drop_reference h s)

  -- `ClearFiles`.
  unfoldable pub clear_files : ZenFs D F A → ZenFs D F A
  unfolding drop_references
  clear_files s = drop_references (handles s.files) (record s { files = [] })

  -- A new object, and the object at the end of the store gone again.
  abbrev pub make_object : ZoneFile → ZenFs D F A → ZenFs D F A
  make_object f s = record s { store = s.store ++ f ∷ [] }

  abbrev pub unmake_object : ZenFs D F A → ZenFs D F A
  unmake_object s = record s { store = take (pred (length s.store)) s.store }

module _ {D F A : Type 0} (e : Env D F A) where
  -- `FormatPathLexically`.
  unfoldable pub format_path : FileName → FileName
  format_path path = (e.paths).join (47 ∷ []) ((e.paths).lexically_normal path)

  abbrev pub aux_prefix : Option Superblock → FileName
  aux_prefix none = []
  aux_prefix (some sb) = c_string sb.aux_fs_path

  unfoldable pub to_aux_path : FileName → ZenFs D F A → FileName
  to_aux_path path s = aux_prefix s.superblock ++ path

  -- `GetFileNoLock`.
  unfoldable pub get_file_no_lock : FileName → ZenFs D F A → Option ℕ
  unfolding format_path find_file
  get_file_no_lock fname s = find_file (format_path fname) s.files
