-- ===== src/File/Tag.antt =====
-- `ZoneFileTag` of fs/io_zenfs.cc: the tags of a file's members in its encoding.
use zenfs.Base.{ℕ}

abbrev pub file_id : ℕ
file_id = 1

abbrev pub file_size : ℕ
file_size = 3

abbrev pub write_life_time_hint : ℕ
write_life_time_hint = 4

abbrev pub extent : ℕ
extent = 5

abbrev pub modification_time : ℕ
modification_time = 6

abbrev pub active_extent_start : ℕ
active_extent_start = 7

abbrev pub is_sparse : ℕ
is_sparse = 8

abbrev pub linked_filename : ℕ
linked_filename = 9
