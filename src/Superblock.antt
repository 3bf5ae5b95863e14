-- ===== src/Superblock.antt =====
-- The class `Superblock` of fs/fs_zenfs.h and fs/fs_zenfs.cc.
pub mod Format
use zenfs.Base.{
  ℕ, ◌-◌, ◌/◌, ◌%◌, Bool, true, false, not, Option, none, some, List, [], ◌++◌, take, drop, length,
  replicate, min, if◌then◌else◌, ltb, ◌==◌,
}
use Prim.Native.Nat.{pred}
use zenfs.Base.Words.{u32, add32}
use zenfs.Status.{Status, ok, corruption}
use zenfs.Platform.{Platform}
use zenfs.Coding.{Coding}

pub record Superblock : Type 0 where
  pub magic : ℕ
  pub uuid : List ℕ
  pub sequence : ℕ
  pub superblock_version : ℕ
  pub flags : ℕ
  pub block_size : ℕ
  pub zone_size : ℕ
  pub nr_zones : ℕ
  pub finish_threshold : ℕ
  pub aux_fs_path : List ℕ
  pub zenfs_version : List ℕ
  pub reserved : List ℕ

-- `MAGIC` (ZENF), `ENCODED_SIZE` and `CURRENT_SUPERBLOCK_VERSION`, and the sizes of the arrays.
abbrev pub super_magic : ℕ
super_magic = 0x5a454e46

abbrev pub encoded_size : ℕ
encoded_size = 512

abbrev pub current_superblock_version : ℕ
current_superblock_version = 2

abbrev pub uuid_size : ℕ
uuid_size = 37

abbrev pub aux_fs_path_size : ℕ
aux_fs_path_size = 256

abbrev pub zenfs_version_size : ℕ
zenfs_version_size = 64

abbrev pub reserved_size : ℕ
reserved_size = 123

-- A byte string in a zeroed array of `size` bytes, cut so that a zero ends it.
abbrev pub padded : ℕ → List ℕ → List ℕ
padded size s =
    let kept = take (min (length s) (pred size)) s in kept ++ replicate (size - length kept) 0

abbrev got_or : ℕ × List ℕ → Option (ℕ × List ℕ) → ℕ × List ℕ
got_or old none = old
got_or old (some r) = r

module _ (c : Coding) where
  -- `EncodeTo`: the sequence number goes up first, and the superblock keeps it.
  unfoldable pub encode_super : Superblock → List ℕ × Superblock
  encode_super sb =
      let sb' = record sb { sequence = add32 sb.sequence 1 } in
      (
        c.put_fixed32 sb'.magic
            ++ (sb'.uuid
                ++ (c.put_fixed32 sb'.sequence
                    ++ (c.put_fixed32 sb'.superblock_version
                        ++ (c.put_fixed32 sb'.flags
                            ++ (c.put_fixed32 sb'.block_size
                                ++ (c.put_fixed32 sb'.zone_size
                                    ++ (c.put_fixed32 sb'.nr_zones
                                        ++ (c.put_fixed32 sb'.finish_threshold
                                            ++ (sb'.aux_fs_path
                                                ++ (sb'.zenfs_version ++ sb'.reserved)))))))))),
        sb',
      )

  -- `GetFixed32` into a member that keeps its value if the input is too short.
  abbrev fixed_or : ℕ → List ℕ → ℕ × List ℕ
  fixed_or old input = got_or (old, input) (c.get_fixed32 input)

  -- The members, in the order of the format.
  unfoldable pub read_members : Superblock → List ℕ → Superblock
  read_members sb input =
      let (magic, i1) = fixed_or sb.magic input in
      let (sequence, i2) = fixed_or sb.sequence (drop uuid_size i1) in
      let (version, i3) = fixed_or sb.superblock_version i2 in
      let (flags, i4) = fixed_or sb.flags i3 in
      let (block_size, i5) = fixed_or sb.block_size i4 in
      let (zone_size, i6) = fixed_or sb.zone_size i5 in
      let (nr_zones, i7) = fixed_or sb.nr_zones i6 in
      let (finish_threshold, i8) = fixed_or sb.finish_threshold i7 in
      let i9 = drop aux_fs_path_size i8 in
      let i10 = drop zenfs_version_size i9 in
      record {
        magic = magic;
        uuid = take uuid_size i1;
        sequence = sequence;
        superblock_version = version;
        flags = flags;
        block_size = block_size;
        zone_size = zone_size;
        nr_zones = nr_zones;
        finish_threshold = finish_threshold;
        aux_fs_path = take aux_fs_path_size i8;
        zenfs_version = take zenfs_version_size i9;
        reserved = take reserved_size i10;
      }

  -- `DecodeFrom`, into a superblock.
  unfoldable pub decode_super : Superblock → List ℕ → Status × Superblock
  decode_super sb input =
      if not (length input == encoded_size)
      then (corruption, sb)
      else (let sb' = read_members sb input in
          if not (sb'.magic == super_magic)
          then (corruption, sb')
          else if not (sb'.superblock_version == current_superblock_version)
          then (corruption, sb')
          else (ok, sb'))

module _ {D F : Type 0} (p : Platform D F) where
  unfoldable pub compatible_with : Superblock → Status
  compatible_with sb =
      if not (sb.block_size == p.block_size)
      then corruption
      else if not (sb.zone_size == p.zone_size / sb.block_size)
      then corruption
      else if ltb p.nr_zones sb.nr_zones
      then corruption
      else ok

  -- The constructor for a new file system; the unique id and the version string are given.
  unfoldable pub new_superblock : List ℕ → List ℕ → List ℕ → ℕ → Bool → Superblock
  new_superblock unique_id version aux_fs_path finish_threshold enable_gc = record {
    magic = super_magic;
    uuid = padded uuid_size unique_id;
    sequence = 0;
    superblock_version = current_superblock_version;
    flags = if enable_gc then 1 else 0;
    block_size = p.block_size;
    zone_size = p.zone_size / p.block_size % u32;
    nr_zones = p.nr_zones;
    finish_threshold = finish_threshold;
    aux_fs_path = padded aux_fs_path_size aux_fs_path;
    zenfs_version = padded zenfs_version_size version;
    reserved = replicate reserved_size 0;
  }
