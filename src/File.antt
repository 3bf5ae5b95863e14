-- ===== src/File.antt =====
-- The classes `ZoneExtent` and `ZoneFile` of fs/io_zenfs.h and fs/io_zenfs.cc: the state, the extents
-- and the names of a file.
pub mod Tag
pub mod Format
pub mod Write
pub mod Read
pub mod Recover
pub mod Writable
pub mod Extents
pub mod Links
use zenfs.Base.{
  ℕ, suc, ◌+◌, ◌-◌, Bool, true, false, not, ◌&&◌, Option, none, some, List, [], ◌∷◌, ◌++◌, length,
  get_elem?, if◌then◌else◌, ltb, ◌==◌,
}
use zenfs.Base.Words.{u64, add64, sub64}
use zenfs.Status.{Status, ok, io_error, corruption, is_ok}
use zenfs.Zone.{Zone, wlth_not_set}
use zenfs.Device.State.{Zbd, io, put_zone}

-- The zone is a position among the io zones.
pub record ZoneExtent : Type 0 where
  pub start : ℕ
  pub length : ℕ
  pub zone : ℕ

pub data IoType : Type 0 where
  wal unknown : IoType

abbrev pub is_wal : IoType → Bool
is_wal wal = true
is_wal unknown = false

-- A file name is its bytes.
abbrev pub FileName : Type 0
FileName = List ℕ

pub record ZoneFile : Type 0 where
  pub extents : List ZoneExtent
  pub linkfiles : List FileName
  pub active_zone : Option ℕ
  pub extent_start : ℕ
  pub extent_filepos : ℕ
  pub lifetime : ℕ
  pub io_type : IoType
  pub file_size : ℕ
  pub file_id : ℕ
  pub nr_synced_extents : ℕ
  pub open_for_wr : Bool
  pub m_time : ℕ
  pub is_sparse : Bool
  pub is_deleted : Bool

-- `NO_EXTENT` and `SPARSE_HEADER_SIZE`.
abbrev pub no_extent : ℕ
no_extent = 0xffffffffffffffff

abbrev pub sparse_header_size : ℕ
sparse_header_size = 8

unfoldable pub new_file : ℕ → ZoneFile
new_file file_id = record {
  extents = [];
  linkfiles = [];
  active_zone = none;
  extent_start = no_extent;
  extent_filepos = 0;
  lifetime = wlth_not_set;
  io_type = unknown;
  file_size = 0;
  file_id = file_id;
  nr_synced_extents = 0;
  open_for_wr = false;
  m_time = 0;
  is_sparse = false;
  is_deleted = false;
}

abbrev pub has_active_extent : ZoneFile → Bool
has_active_extent f = not (f.extent_start == no_extent)

unfoldable pub metadata_synced : ZoneFile → ZoneFile
metadata_synced f = record f { nr_synced_extents = length f.extents }

unfoldable pub metadata_unsynced : ZoneFile → ZoneFile
metadata_unsynced f = record f { nr_synced_extents = 0 }

-- `TryAcquireWRLock` and `ReleaseWRLock`, for a mutex that is held exactly while the flag is set.
unfoldable pub try_acquire_wr_lock : ZoneFile → Bool × ZoneFile
try_acquire_wr_lock f =
    if f.open_for_wr then (false, f) else (true, record f { open_for_wr = true })

unfoldable pub release_wr_lock : ZoneFile → ZoneFile
release_wr_lock f = record f { open_for_wr = false }

-- `GetExtent`: the extent that holds a position in the file, and the position on the device.
unfoldable pub get_extent : ℕ → List ZoneExtent → Option (ZoneExtent × ℕ)
get_extent file_offset [] = none
get_extent file_offset (e ∷ es) =
    if ltb file_offset e.length
    then some (e, add64 e.start file_offset)
    else get_extent (file_offset - e.length) es

abbrev pub extents_length : List ZoneExtent → ℕ
extents_length [] = 0
extents_length (e ∷ es) = add64 e.length (extents_length es)

module _ {D F : Type 0} where
  -- `zone->used_capacity_ += n` and `-= n`.
  abbrev pub with_used : (ℕ → ℕ) → ℕ → Option Zone → Zbd D F → Zbd D F
  with_used f i none s = s
  with_used f i (some z) s = put_zone (io i) (record z { used_capacity = f z.used_capacity }) s

  unfoldable pub add_used : ℕ → ℕ → Zbd D F → Zbd D F
  add_used i n s = with_used (λ u. add64 u n) i (get_elem? s.io_zones i) s

  unfoldable pub sub_used : ℕ → ℕ → Zbd D F → Zbd D F
  sub_used i n s = with_used (λ u. sub64 u n) i (get_elem? s.io_zones i) s

  -- The loop of `ClearExtents`.
  unfoldable pub release_extents : List ZoneExtent → Zbd D F → Zbd D F
  unfolding sub_used
  release_extents [] s = s
  release_extents (e ∷ es) s = release_extents es (sub_used e.zone e.length s)

  unfoldable pub clear_extents : ZoneFile → Zbd D F → ZoneFile × Zbd D F
  unfolding release_extents
  clear_extents f s = (record f { extents = [] }, release_extents f.extents s)

  -- The extents that `MergeUpdate` copies from the update.
  unfoldable pub copy_extents : List ZoneExtent → ZoneFile → Zbd D F → ZoneFile × Zbd D F
  unfolding add_used
  copy_extents [] f s = (f, s)
  copy_extents (e ∷ es) f s =
      copy_extents es (record f { extents = f.extents ++ e ∷ [] }) (add_used e.zone e.length s)

  unfoldable pub merge_update : ZoneFile → Bool → ZoneFile → Zbd D F → Status × ZoneFile × Zbd D F
  unfolding clear_extents copy_extents metadata_synced
  merge_update update replace f s =
      if not (f.file_id == update.file_id)
      then (corruption, f, s)
      else (let head = record f {
        file_size = update.file_size;
        lifetime = update.lifetime;
        m_time = update.m_time;
      } in
          let (cleared, s') = (if replace then clear_extents head s else (head, s)) in
          let (merged, s'') = copy_extents update.extents cleared s' in
          let synced =
            metadata_synced (record merged {
              extent_start = update.extent_start;
              is_sparse = update.is_sparse;
            }) in
          (ok, record synced { linkfiles = update.linkfiles }, s''))

-- Equality of names.
unfoldable pub name_eq : FileName → FileName → Bool
name_eq [] [] = true
name_eq (a ∷ l) (b ∷ m) = a == b && name_eq l m
name_eq _ _ = false

-- `std::find` and `erase` of the first occurrence.
unfoldable pub erase_name : FileName → List FileName → Option (List FileName)
unfolding name_eq
erase_name name [] = none
erase_name name (n ∷ ns) =
    let rest = erase_name name ns in
    if name_eq n name then some ns else elim rest [ none ↦ none | some l ↦ some (n ∷ l) ]

unfoldable pub add_link_name : FileName → ZoneFile → ZoneFile
add_link_name linkf f = record f { linkfiles = f.linkfiles ++ linkf ∷ [] }

unfoldable pub rename_link : FileName → FileName → ZoneFile → Status × ZoneFile
unfolding erase_name
rename_link src dest f = elim (erase_name src f.linkfiles) [
  | none ↦ (io_error, f)
  | some rest ↦ (ok, record f { linkfiles = rest ++ dest ∷ [] })
]

unfoldable pub remove_link_name : FileName → ZoneFile → Status × ZoneFile
unfolding erase_name
remove_link_name linkf f = elim (erase_name linkf f.linkfiles) [
  | none ↦ (io_error, f)
  | some rest ↦ (ok, record f { linkfiles = rest })
]
