-- ===== src/Device.antt =====
-- The class `ZonedBlockDevice` of fs/zbd_zenfs.h and fs/zbd_zenfs.cc, in the modules below.
pub mod State
pub mod Tokens
pub mod Select
pub mod Alloc
pub mod Migrate
pub mod Open
pub mod Space
pub mod Io
pub mod Qps
