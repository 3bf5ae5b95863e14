-- ===== src/Examples/File.antt =====
-- Examples of the theorems on the superblock, on files and on their format.
use zenfs.Base.{
  ℕ, ◌+◌, ◌-◌, ◌≤◌, ◌<◌, ◌≡◌, ◌≢◌, refl, ◌⊎◌, true, false, none, some, List, [], ◌∷◌, ◌++◌, arith,
  drop, length, get_elem?, replicate,
}
use zenfs.Status.{ok, corruption, io_error}
use zenfs.Coding.Sample.{sample_coding, sample_laws}
use zenfs.Superblock.{
  Superblock, encode_super, decode_super, compatible_with, new_superblock, encoded_size,
}
use zenfs.Superblock.Format.{
  IsSized, IsWordSized, length-encode_super, decode-encode_super, new_superblock_mounts,
}
use zenfs.Zone.{wlth_medium}
use zenfs.Device.Space.{get_io_zone}
use zenfs.File.{
  ZoneExtent, ZoneFile, FileName, unknown, no_extent, new_file, get_extent, clear_extents,
  merge_update, metadata_synced, add_link_name, rename_link, remove_link_name,
}
use zenfs.File.Extents.{with_live, Located, clear_extents_at, merge_update_at, get_extent-Located}
use zenfs.File.Links.{times, one_if, rename_link-remove_link_name}
use zenfs.File.Format.{encode_file, decode_file}
use zenfs.File.Format.RoundTrip.{IsPlaced, attach, restored, decode-encode_file}
use zenfs.MetaLog.{ReadResult, encode_record, record_crc, check_record, round_up}
use zenfs.MetaLog.Records.{checksum, check_record-encode_record}
use zenfs.Examples.Sample.{platform, zone_at, zbd}

abbrev superblock : Superblock
superblock = record {
  magic = 0x5a454e46;
  uuid = replicate 37 65;
  sequence = 6;
  superblock_version = 2;
  flags = 1;
  block_size = 512;
  zone_size = 8;
  nr_zones = 32;
  finish_threshold = 10;
  aux_fs_path = replicate 256 0;
  zenfs_version = replicate 64 0;
  reserved = replicate 123 0;
}

superblock-IsSized : IsSized superblock
superblock-IsSized = record {
  magic_lt = omega arith;
  sequence_lt = omega arith;
  version_lt = omega arith;
  flags_lt = omega arith;
  block_size_lt = omega arith;
  zone_size_lt = omega arith;
  nr_zones_lt = omega arith;
  finish_threshold_lt = omega arith;
  uuid_len = refl;
  aux_len = refl;
  version_len = refl;
  reserved_len = refl;
}

platform-IsWordSized : IsWordSized platform
platform-IsWordSized = record {
  block_size_lt = omega arith;
  nr_zones_lt = omega arith;
  zone_blocks_lt = omega arith;
}

length-encode_super_example : length (encode_super sample_coding superblock).0 ≡ encoded_size
length-encode_super_example =
    length-encode_super sample_coding sample_laws superblock superblock-IsSized

decode-encode_super_example :
    decode_super sample_coding superblock (encode_super sample_coding superblock).0
    ≡ (ok, record superblock { sequence = 7 })
decode-encode_super_example =
    decode-encode_super sample_coding sample_laws superblock superblock superblock-IsSized refl refl

new_superblock_mounts_example :
    let sb = new_superblock platform (49 ∷ []) (50 ∷ []) (51 ∷ []) 10 true in
    (decode_super sample_coding superblock (encode_super sample_coding sb).0
      ≡ (ok, record sb { sequence = 1 }))
    × (compatible_with platform (record sb { sequence = 1 }) ≡ ok)
new_superblock_mounts_example =
    new_superblock_mounts platform platform-IsWordSized (49 ∷ []) (50 ∷ []) (51 ∷ []) 10 true
      sample_coding sample_laws superblock (omega arith)

-- A sparse file with two extents in the first zone and one in the second, and two names.
abbrev extents : List ZoneExtent
extents =
    record { start = 8; length = 100; zone = 0 }
    ∷ record { start = 520; length = 50; zone = 0 }
    ∷ record { start = 4104; length = 60; zone = 1 }
    ∷ []

abbrev file : ZoneFile
file = record {
  extents = extents;
  linkfiles = (97 ∷ []) ∷ (98 ∷ 99 ∷ []) ∷ [];
  active_zone = none;
  extent_start = no_extent;
  extent_filepos = 0;
  lifetime = wlth_medium;
  io_type = unknown;
  file_size = 210;
  file_id = 7;
  nr_synced_extents = 1;
  open_for_wr = false;
  m_time = 1700000000;
  is_sparse = true;
  is_deleted = false;
}

second-IsPlaced : IsPlaced platform zbd (record { start = 520; length = 50; zone = 0 })
unfolding get_io_zone
second-IsPlaced = record { start_lt = omega arith; length_lt = omega arith; zone_at = refl }

third-IsPlaced : IsPlaced platform zbd (record { start = 4104; length = 60; zone = 1 })
unfolding get_io_zone
third-IsPlaced = record { start_lt = omega arith; length_lt = omega arith; zone_at = refl }

decode-encode_file_example :
    decode_file sample_coding platform 10 (new_file 0) (encode_file sample_coding file 1) zbd
    ≡ some (
      ok,
      metadata_synced (restored file (drop 1 extents) (new_file 0)),
      attach (drop 1 extents) zbd,
    )
decode-encode_file_example =
    decode-encode_file platform sample_coding sample_laws 1 10 file (new_file 0) zbd (omega arith)
      (omega arith) (omega arith) (omega arith) (omega arith)
      (second-IsPlaced, (third-IsPlaced, tt))
      (
        record { nonempty = omega arith; fits = omega arith },
        (record { nonempty = omega arith; fits = omega arith }, tt),
      )
      (omega arith)

clear_extents_at_example :
    ((clear_extents file zbd).0.extents ≡ [])
    × (get_elem? (clear_extents file zbd).1.io_zones 0
        ≡ some (with_live (512 - 150) (zone_at 0 1024 512 3)))
clear_extents_at_example =
    clear_extents_at file zbd 0 (zone_at 0 1024 512 3) refl (omega arith) (omega arith)

-- An update with one extent more, for the same file.
abbrev update : ZoneFile
update = record file { extents = record { start = 600; length = 40; zone = 0 } ∷ [] }

merge_update_at_example :
    let (st, f', s') = merge_update update true file zbd in
    ((st ≡ corruption) × (file.file_id ≢ update.file_id) × (f' ≡ file) × (s' ≡ zbd))
    ⊎ ((st ≡ ok)
        × (file.file_id ≡ update.file_id)
        × (f'.extents ≡ update.extents)
        × (get_elem? s'.io_zones 0 ≡ some (with_live (512 - 150 + 40) (zone_at 0 1024 512 3))))
merge_update_at_example =
    merge_update_at file zbd 0 (zone_at 0 1024 512 3) refl (omega arith) update true (omega arith)
      (omega arith)

get_extent-Located_example :
    ((210 ≤ 120) × (get_extent 120 extents ≡ none)) ⊎ ((120 < 210) × Located 120 extents)
get_extent-Located_example = get_extent-Located extents 120

rename_link-remove_link_name_example :
    ((times (97 ∷ []) file.linkfiles ≡ 0)
      × (rename_link (97 ∷ []) (100 ∷ []) file ≡ (io_error, file))
      × (remove_link_name (97 ∷ []) file ≡ (io_error, file)))
    ⊎ ((l : List FileName) × (0 < times (97 ∷ []) file.linkfiles)
        × (rename_link (97 ∷ []) (100 ∷ []) file
            ≡ (ok, add_link_name (100 ∷ []) (record file { linkfiles = l })))
        × (remove_link_name (97 ∷ []) file ≡ (ok, record file { linkfiles = l }))
        × ((n : FileName) → times n file.linkfiles ≡ one_if (97 ∷ []) n + times n l)
        × ((n : FileName) → times n (l ++ (100 ∷ []) ∷ []) ≡ times n l + one_if (100 ∷ []) n))
rename_link-remove_link_name_example = rename_link-remove_link_name file (97 ∷ []) (100 ∷ [])

-- A record of two bytes, as it is read from a log.
abbrev record_read : ReadResult sample_coding platform
record_read = record { status = ok; slice = 7 ∷ 9 ∷ []; read_pos = 10; dev = 0 }

check_record-encode_record_example :
    (rest padding : List ℕ) × (sample_coding.get_fixed32
        (encode_record sample_coding 512 (7 ∷ 9 ∷ []))
      ≡ some (record_crc sample_coding (7 ∷ 9 ∷ []), rest))
    × (sample_coding.get_fixed32 rest ≡ some (2, 7 ∷ 9 ∷ padding))
    × (((checksum sample_coding 2 (7 ∷ 9 ∷ []) ≡ checksum sample_coding 2 (7 ∷ 9 ∷ []))
          × (check_record sample_coding platform 512
                (record_crc sample_coding (7 ∷ 9 ∷ []))
                2
                record_read
              ≡ record record_read { read_pos = round_up 512 10 }))
        ⊎ ((checksum sample_coding 2 (7 ∷ 9 ∷ []) ≢ checksum sample_coding 2 (7 ∷ 9 ∷ []))
            × (check_record sample_coding platform 512
                  (record_crc sample_coding (7 ∷ 9 ∷ []))
                  2
                  record_read
                ≡ record record_read { status = io_error })))
check_record-encode_record_example =
    check_record-encode_record platform sample_coding sample_laws 512 (7 ∷ 9 ∷ []) record_read
      (omega arith) refl
