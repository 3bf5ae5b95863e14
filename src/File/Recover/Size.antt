-- ===== src/File/Recover/Size.antt =====
-- What `Recover` (fs/io_zenfs.cc) leaves of a file.
use zenfs.Platform.{Platform}
use zenfs.Zone.{Zone}
use zenfs.Coding.{Coding}
