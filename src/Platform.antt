-- ===== src/Platform.antt =====
-- What the zoned block device layer stands on: a storage backend (the virtual class
-- `ZonedBlockDeviceBackend` of fs/zbd_zenfs.h) over a device whose state has the type `D`, and the
-- machine's `double`, a type `F` with its operations.
use zenfs.Base.{ℕ, Bool, Option, List}
use zenfs.Status.{Status}

-- One zone, as the backend reports it.
pub record ZoneInfo : Type 0 where
  pub is_swr : Bool
  pub is_offline : Bool
  pub is_writable : Bool
  pub is_active : Bool
  pub is_open : Bool
  pub start : ℕ
  pub max_capacity : ℕ
  pub wp : ℕ

-- The outcome of a zone reset: a failure, or the zone's new state.
pub data ResetReply : Type 0 where
  failed : Status → ResetReply
  was_reset : Bool → ℕ → ResetReply

-- The outcome of a read: the bytes, an interrupted call (-1 with EINTR), or another negative value.
pub data ReadReply : Type 0 where
  bytes : List ℕ → ReadReply
  interrupted : ReadReply
  read_error : ReadReply

-- The outcome of opening: a failure, or the limits on active and on open zones.
pub data OpenReply : Type 0 where
  not_opened : Status → OpenReply
  opened : ℕ → ℕ → OpenReply

pub record Backend (D : Type 0) : Type 0 where
  pub block_size : ℕ
  pub zone_size : ℕ
  pub nr_zones : ℕ
  pub open_device : D → Bool → Bool → OpenReply × D
  pub list_zones : D → Option (List ZoneInfo)
  pub reset : D → ℕ → ResetReply × D
  pub finish : D → ℕ → Status × D
  pub close : D → ℕ → Status × D
  -- The size is an `int`, as its 32 bits.
  pub read : D → ℕ → ℕ → Bool → ReadReply × D
  -- `none` is a negative return value.
  pub write : D → List ℕ → ℕ → Option ℕ × D
  -- Whether the call returned 0.
  pub invalidate_cache : D → ℕ → ℕ → Bool × D

pub record Double (F : Type 0) : Type 0 where
  pub of_ℕ : ℕ → F
  pub add : F → F → F
  pub sub : F → F → F
  pub mul : F → F → F
  pub div : F → F → F
  pub square : F → F
  pub sqrt : F → F
  pub gt : F → F → Bool
  -- The constant 1.5.
  pub one_and_a_half : F

pub record Platform (D F : Type 0) : Type 0 where
  pub double : Double F
  pub backend : Backend D
  pub open backend use *
