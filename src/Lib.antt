-- ===== src/Lib.antt =====
-- ZenFS: a RocksDB file system for zoned block devices, in fs/.
--
-- The parts of the program, and the files that model them:
--   * `Zone` (fs/zbd_zenfs.h, fs/zbd_zenfs.cc): Zone.antt. A zone is a record with the members of the
--     class; its operations are functions from a zone and a device to a status and what they leave.
--   * `ZonedBlockDevice` (fs/zbd_zenfs.h, fs/zbd_zenfs.cc): Device.antt and its modules. State.antt has
--     the state and the operations of `Zone` at a position in it, with the wear counters that
--     `Zone::Reset` keeps; Tokens.antt the counts of open and active zones; Select.antt the loops that
--     choose a zone; Alloc.antt the allocator; Migrate.antt the zones of migrations; Open.antt the
--     opening; Space.antt the queries; Io.antt reading; Qps.antt whether it is idle.
--   * `ZonedBlockDeviceBackend` (fs/zbd_zenfs.h): Platform.antt, a record of operations on a device of
--     an abstract type. The backends for libzbd and zonefs are behind this parameter.
--   * `Superblock` and `ZenMetaLog` (fs/fs_zenfs.h, fs/fs_zenfs.cc): Superblock.antt and MetaLog.antt.
--   * `ZoneExtent` and `ZoneFile` (fs/io_zenfs.h, fs/io_zenfs.cc): File.antt with Format.antt
--     (encoding), Write.antt (appending), Read.antt (reading, migrating data, and the read handles) and
--     Recover.antt (after a crash). A file allocates zones from the device and counts its extents as
--     live data of their zones. `ZonedWritableFile`, the buffer in front of a file: File/Writable.antt.
--   * `ZenFS` (fs/fs_zenfs.h, fs/fs_zenfs.cc): Fs.antt has the state, with the map of files and the
--     objects that it refers to; Fs/Log.antt the records and the change to a new metadata zone;
--     Fs/Names.antt deletion, renaming and linking of files; Fs/Directories.antt the operations on
--     directories; Fs/Open.antt opening; Fs/Replay.antt reading the log back; Fs/Mount.antt `Mount` and
--     `MkFS`; Fs/Migrate.antt the migration of extents (with fs/snapshot.h). Every operation that
--     changes a file writes a record to the log first, and takes its change back if that fails.
--
-- Conventions. A `Zone *` is a position in the vector of io zones or of metadata zones. Numbers are
-- natural numbers; where the source computes in a machine word, the wrap-around is written out (the
-- operations of Base/Words.antt). Members of type `long` are integers. A call that can wait for another
-- thread, or loop without an end, returns an `Option`, and `none` says that it has not returned. Each
-- function is one thread's run, in which no other thread interferes; critical sections are single
-- steps. Codings and checksums of RocksDB are the parameter `Coding`, with the laws that the code
-- relies on; Coding/Sample.antt shows that they can hold.
--
-- Fuel. The loop of `Zone::Append` has one round more than the buffer has bytes, which is enough since
-- each write takes at least one byte. The loop of `DecodeFrom` of a file needs one round for each
-- extent and name and at most six more. The loop of `AllocateIOZone` for an active-zone token has its
-- fuel from the caller; the results say when two rounds are enough.
--
-- The loops of `PositionedRead`, `InvalidateCache`, `MigrateData`, recovery and replay have their fuel
-- from the caller. The loop of `BufferedWrite` has one round more than there are bytes, which is enough
-- since each round takes at least one. Deletion and renaming of directories have the depth of the tree
-- as fuel.
--
-- Shared objects. A `ZoneFile` that several names or handles refer to is one position in a store. An
-- object whose last reference goes clears its extents, and stays in the store without them. The file
-- system below ZenFS (`target()`), the paths, the clock, and what new memory holds are parameters.
--
-- Not modelled: logging, metrics, JSON output, the command-line tool, the backends' system calls,
-- memory exhaustion, the threads that sleep and then migrate extents, and the replacement of
-- std::filesystem in fs/filesystem_utility.h, since paths are a parameter.
pub mod Base
pub mod Status
pub mod Platform
pub mod Zone
pub mod Device
pub mod Coding
pub mod Superblock
pub mod MetaLog
pub mod File
pub mod Fs
pub mod Examples
