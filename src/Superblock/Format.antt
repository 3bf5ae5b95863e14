-- ===== src/Superblock/Format.antt =====
-- The format of the superblock on disk: `EncodeTo` and `DecodeFrom` of `Superblock` (fs/fs_zenfs.cc).
use zenfs.Base.{
  ℕ, ◌+◌, ◌-◌, ◌/◌, ◌<◌, ◌≡◌, refl, ap, Bool, List, [], ◌∷◌, ◌++◌, arith, take, drop, length,
  length-append, length-replicate, length-take, take_length-append, drop_length-append, replicate,
  min,
}
use Prim.Native.Nat.{pred}
use zenfs.Base.Words.{u32, add32}
use zenfs.Status.{ok}
use zenfs.Platform.{Platform}
use zenfs.Coding.{Coding, CodingLaws}
use zenfs.Superblock.{
  Superblock, encode_super, decode_super, read_members, compatible_with, new_superblock, fixed_or,
  padded, super_magic, current_superblock_version, encoded_size, uuid_size, aux_fs_path_size,
  zenfs_version_size, reserved_size,
}

pub take_exact : (n : ℕ) (xs ys : List ℕ) → length xs ≡ n → take n (xs ++ ys) ≡ xs
take_exact n xs ys e = rw (← e) (take_length-append xs ys)

pub drop_exact : (n : ℕ) (xs ys : List ℕ) → length xs ≡ n → drop n (xs ++ ys) ≡ ys
drop_exact n xs ys e = rw (← e) (drop_length-append xs ys)

take_all : (n : ℕ) (xs : List ℕ) → length xs ≡ n → take n xs ≡ xs
take_all n [] e = ground (arith, e)
take_all n (x ∷ xs) e = rw (← e) (ap (◌∷◌ x) (take_all (length xs) xs refl))

-- The members fit their types: the words are below 2 ^ 32, the arrays have their lengths.
pub record IsSized (sb : Superblock) : Type 0 where
  pub magic_lt : sb.magic < u32
  pub sequence_lt : sb.sequence < u32
  pub version_lt : sb.superblock_version < u32
  pub flags_lt : sb.flags < u32
  pub block_size_lt : sb.block_size < u32
  pub zone_size_lt : sb.zone_size < u32
  pub nr_zones_lt : sb.nr_zones < u32
  pub finish_threshold_lt : sb.finish_threshold < u32
  pub uuid_len : length sb.uuid ≡ uuid_size
  pub aux_len : length sb.aux_fs_path ≡ aux_fs_path_size
  pub version_len : length sb.zenfs_version ≡ zenfs_version_size
  pub reserved_len : length sb.reserved ≡ reserved_size

module _ (c : Coding) (l : CodingLaws c) where
  length-member :
      (n k : ℕ) (rest : List ℕ) → length rest ≡ k → length (c.put_fixed32 n ++ rest) ≡ 4 + k
  length-member n k rest e =
      omega (arith, length-append (c.put_fixed32 n) rest, l.length-put_fixed32 n)

  length-array :
      (a k : ℕ) (s rest : List ℕ) → length s ≡ a → length rest ≡ k → length (s ++ rest) ≡ a + k
  length-array a k s rest e f = omega (arith, length-append s rest)

  -- An encoded superblock has 512 bytes.
  pub length-encode_super :
      (sb : Superblock) → IsSized sb → length (encode_super c sb).0 ≡ encoded_size
  unfolding encode_super
  length-encode_super sb h = length-member sb.magic 508 _ (
      length-array 37 471 sb.uuid _ h.uuid_len (
        length-member _ 467 _ (
          length-member _ 463 _ (
            length-member _ 459 _ (
              length-member _ 455 _ (
                length-member _ 451 _ (
                  length-member _ 447 _ (
                    length-member _ 443 _ (
                      length-array 256 187 _ _ h.aux_len
                        (length-array 64 123 _ _ h.version_len h.reserved_len))))))))))

  member :
      (old n : ℕ) (rest : List ℕ) → n < u32 → fixed_or c old (c.put_fixed32 n ++ rest) ≡ (n, rest)
  member old n rest h = rw (l.get-put_fixed32 n rest h)

  next_sequence-lt : (n : ℕ) → add32 n 1 < u32
  next_sequence-lt n = omega arith

  read-encode :
      (old sb : Superblock)
      → IsSized sb
      → read_members c old (encode_super c sb).0 ≡ (encode_super c sb).1
  unfolding read_members encode_super
  read-encode old sb h = rw (
    l.get-put_fixed32 sb.magic _ h.magic_lt,
    drop_exact uuid_size sb.uuid _ h.uuid_len,
    take_exact uuid_size sb.uuid _ h.uuid_len,
    l.get-put_fixed32 (add32 sb.sequence 1) _ (next_sequence-lt sb.sequence),
    l.get-put_fixed32 sb.superblock_version _ h.version_lt,
    l.get-put_fixed32 sb.flags _ h.flags_lt,
    l.get-put_fixed32 sb.block_size _ h.block_size_lt,
    l.get-put_fixed32 sb.zone_size _ h.zone_size_lt,
    l.get-put_fixed32 sb.nr_zones _ h.nr_zones_lt,
    l.get-put_fixed32 sb.finish_threshold _ h.finish_threshold_lt,
    drop_exact aux_fs_path_size sb.aux_fs_path _ h.aux_len,
    take_exact aux_fs_path_size sb.aux_fs_path _ h.aux_len,
    drop_exact zenfs_version_size sb.zenfs_version _ h.version_len,
    take_exact zenfs_version_size sb.zenfs_version _ h.version_len,
    take_all reserved_size sb.reserved h.reserved_len,
  )

  -- A superblock with the right magic number and version that is written, and then read into any
  -- superblock object, is read back as it is kept in memory, with the sequence number that the
  -- writing has raised by 1.
  pub decode-encode_super :
      (old sb : Superblock)
      → IsSized sb
      → sb.magic ≡ super_magic
      → sb.superblock_version ≡ current_superblock_version
      → decode_super c old (encode_super c sb).0
        ≡ (ok, record sb { sequence = add32 sb.sequence 1 })
  unfolding decode_super
  decode-encode_super old sb h m v =
      rw (length-encode_super sb h, read-encode old sb h) (unfold encode_super in ground arith)

length-padded : (size : ℕ) (s : List ℕ) → 0 < size → length (padded size s) ≡ size
length-padded size s h = omega (
  arith,
  length-append (take (min (length s) (pred size)) s)
      (replicate (size - length (take (min (length s) (pred size)) s)) 0),
  length-replicate {A = ℕ} (size - length (take (min (length s) (pred size)) s)) 0,
  length-take (min (length s) (pred size)) s,
)

-- The sizes of the device are words, as `GetBlockSize` and `GetNrZones` return them, and so is the
-- size of a zone in blocks.
pub record IsWordSized {D F : Type 0} (p : Platform D F) : Type 0 where
  pub block_size_lt : p.block_size < u32
  pub nr_zones_lt : p.nr_zones < u32
  pub zone_blocks_lt : p.zone_size / p.block_size < u32

module _ {D F : Type 0} (p : Platform D F) (w : IsWordSized p) (unique_id version path : List ℕ)
    (threshold : ℕ) (gc : Bool) where
  new_superblock-IsSized :
      threshold < u32 → IsSized (new_superblock p unique_id version path threshold gc)
  unfolding new_superblock
  new_superblock-IsSized h = record {
    magic_lt = omega arith;
    sequence_lt = omega arith;
    version_lt = omega arith;
    flags_lt = ground arith;
    block_size_lt = w.block_size_lt;
    zone_size_lt = omega arith;
    nr_zones_lt = w.nr_zones_lt;
    finish_threshold_lt = h;
    uuid_len = length-padded uuid_size unique_id (omega arith);
    aux_len = length-padded aux_fs_path_size path (omega arith);
    version_len = length-padded zenfs_version_size version (omega arith);
    reserved_len = length-replicate {A = ℕ} reserved_size 0;
  }

  -- What `MkFS` writes is what `Mount` accepts: the superblock made for a device, written and read
  -- back, decodes without an error, with the same members and the sequence number 1, and is found
  -- compatible with that device.
  pub new_superblock_mounts :
      (c : Coding) (l : CodingLaws c) (old : Superblock)
      → threshold < u32
      → let sb = new_superblock p unique_id version path threshold gc in
        (decode_super c old (encode_super c sb).0 ≡ (ok, record sb { sequence = 1 }))
        × (compatible_with p (record sb { sequence = 1 }) ≡ ok)
  unfolding new_superblock compatible_with
  new_superblock_mounts c l old h = (
    decode-encode_super c l old (new_superblock p unique_id version path threshold gc)
        (new_superblock-IsSized h) refl refl,
    ground (arith, w.zone_blocks_lt),
  )
