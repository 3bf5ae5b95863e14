-- ===== src/Fs/Tag.antt =====
-- `ZenFSTag` of fs/fs_zenfs.h: the tags of the records in the metadata log.
use zenfs.Base.{ℕ}

abbrev pub complete_files_snapshot : ℕ
complete_files_snapshot = 1

abbrev pub file_update : ℕ
file_update = 2

abbrev pub file_deletion : ℕ
file_deletion = 3

abbrev pub end_record : ℕ
end_record = 4

abbrev pub file_replace : ℕ
file_replace = 5

abbrev pub io_zone_reset_count : ℕ
io_zone_reset_count = 6
