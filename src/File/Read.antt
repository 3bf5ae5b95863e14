-- ===== src/File/Read.antt =====
-- Reading a `ZoneFile` (fs/io_zenfs.cc): `PositionedRead`, `InvalidateCache`, and the copy of data that
-- `MigrateData` makes.
pub mod Asked
pub mod Contents
pub mod Rounds
pub mod Whole
use zenfs.Base.{
  ℕ, zero, suc, ◌+◌, ◌-◌, ◌*◌, ◌%◌, Bool, true, not, ◌&&◌, Option, none, some, List, [], ◌++◌, take,
  length, if◌then◌else◌, ltb, leb, ◌==◌, min,
}
use zenfs.Base.Words.{add64, sub64, u32}
use zenfs.Status.{Status, ok, io_error, is_ok}
use zenfs.Platform.{Platform}
use zenfs.Device.State.{Zbd, io, append_at}
use zenfs.Device.Io.{read_zbd, invalidate_cache_zbd}
use zenfs.File.{ZoneExtent, ZoneFile, get_extent}
use zenfs.File.Write.{pad_size}

module _ {D F : Type 0} (p : Platform D F) where
  -- What a read leaves: the status, the bytes and the device. `none`: it does not return.
  abbrev pub Read : Type 0
  Read = Option (Status × List ℕ × D)

  -- After a read of the device: the bytes that count, without those read for alignment.
  abbrev pub counted : ℕ → List ℕ → List ℕ
  counted pread_sz bytes = if leb (length bytes) pread_sz then bytes else take pread_sz bytes

  -- What a round asks for: no more than the rest of the extent, and for direct reads whole blocks.
  unfoldable pub pread_size : ℕ → ℕ → ℕ → ℕ
  pread_size left r_off extent_end =
      if ltb extent_end (add64 left r_off) then sub64 extent_end r_off else left

  unfoldable pub aligned_size : Bool → ℕ → ℕ
  unfolding pad_size
  aligned_size direct pread_sz =
      add64 pread_sz (if direct then pad_size p.block_size pread_sz else 0)

  -- On to the next extent, if the one at hand is read to its end; `again` is the next round.
  abbrev pub next_extent :
      (List ℕ → ℕ → ℕ → D → Read) → List ZoneExtent → ℕ → ℕ → List ℕ → ℕ → ℕ → D → Read
  next_extent again extents offset r_sz got r_off extent_end dev =
      if not (length got == r_sz) && r_off == extent_end
      then elim (get_extent (add64 offset (length got)) extents) [
        | none ↦ some (ok, got, dev)
        | some (extent, _) ↦ again got extent.start (add64 extent.start extent.length) dev
      ]
      else again got r_off extent_end dev

  abbrev pub after_read :
      (List ℕ → ℕ → ℕ → D → Read)
      → List ZoneExtent
      → ℕ
      → ℕ
      → List ℕ
      → ℕ
      → ℕ
      → ℕ
      → Option (Option (List ℕ) × D)
      → Read
  after_read again extents offset r_sz got pread_sz r_off extent_end none = none
  after_read again extents offset r_sz got pread_sz r_off extent_end (some (none, dev)) =
      some (io_error, [], dev)
  after_read again extents offset r_sz got pread_sz r_off extent_end (some (some bytes, dev)) =
      let read = counted pread_sz bytes in
      if length bytes == 0
      then some (ok, got, dev)
      else next_extent again extents offset r_sz (got ++ read) (add64 r_off (length read))
          extent_end dev

  -- The loop of `PositionedRead`: `got` has been read, of `r_sz` bytes. Fuel: each round reads
  -- something, or is the last.
  unfoldable pub read_extents : ℕ → List ZoneExtent → ℕ → ℕ → Bool → List ℕ → ℕ → ℕ → D → Read
  unfolding read_zbd get_extent pread_size aligned_size
  read_extents zero extents offset r_sz direct got r_off extent_end dev = none
  read_extents (suc fuel) extents offset r_sz direct got r_off extent_end dev =
      let pread_sz = pread_size (sub64 r_sz (length got)) r_off extent_end in
      let again = read_extents fuel extents offset r_sz direct in
      if length got == r_sz
      then some (ok, got, dev)
      else after_read again extents offset r_sz got pread_sz r_off extent_end
          (read_zbd p (suc fuel) r_off (aligned_size direct pread_sz) direct dev)

  unfoldable pub positioned_read : ℕ → ZoneFile → ℕ → ℕ → Bool → D → Read
  unfolding read_extents get_extent
  positioned_read fuel f offset n direct dev =
      if leb f.file_size offset then some (ok, [], dev) else elim (get_extent offset f.extents) [
        | none ↦ some (ok, [], dev)
        | some (extent, r_off) ↦
            let r_sz = (if ltb f.file_size (add64 offset n) then sub64 f.file_size offset else n) in
            read_extents fuel f.extents offset r_sz direct [] r_off
              (add64 extent.start extent.length) dev
      ]

  -- The loop of `InvalidateCache`.
  unfoldable pub invalidate_extents : ℕ → List ZoneExtent → ℕ → ℕ → D → Option (Status × D)
  unfolding get_extent invalidate_cache_zbd
  invalidate_extents zero extents offset left dev = none
  invalidate_extents (suc fuel) extents offset left dev =
      if left == 0 then some (ok, dev) else elim (get_extent offset extents) [
        | none ↦ some (io_error, dev)
        | some (extent, dev_offset) ↦
            let extent_end = add64 extent.start extent.length in
            let invalidate_size = min left (sub64 extent_end dev_offset) in
            let (st, dev') = invalidate_cache_zbd p dev_offset invalidate_size dev in
            let rest =
              invalidate_extents fuel extents (add64 offset invalidate_size)
                (left - invalidate_size) dev' in
            if is_ok st then rest else some (st, dev')
      ]

  unfoldable pub invalidate_cache : ℕ → ZoneFile → ℕ → ℕ → D → Option (Status × D)
  unfolding invalidate_extents
  invalidate_cache fuel f pos size dev =
      invalidate_extents fuel f.extents pos (if size == 0 then f.file_size else size) dev

  -- The loop of `MigrateData`. What `Append` to the target zone says is not looked at.
  unfoldable pub migrate_loop : ℕ → ℕ → ℕ → ℕ → ℕ → Zbd D F → Option (Status × Zbd D F)
  unfolding read_zbd append_at pad_size
  migrate_loop zero offset left step target s = none
  migrate_loop (suc fuel) offset left step target s =
      if left == 0
      then some (ok, s)
      else (let read_sz = (if ltb step left then step else left) in
          elim (read_zbd p (suc fuel) offset (read_sz + pad_size p.block_size read_sz) true s.dev) [
            | none ↦ none
            | some (none, dev') ↦ some (io_error, record s { dev = dev' })
            | some (some buf, dev') ↦ elim (append_at p (io target) buf (record s { dev = dev' })) [
              | none ↦ none
              | some (st, s') ↦
                  migrate_loop fuel (add64 offset (length buf)) (left - read_sz) read_sz target s'
            ]
          ])

  unfoldable pub migrate_data : ℕ → ℕ → ℕ → ℕ → Zbd D F → Option (Status × Zbd D F)
  unfolding migrate_loop
  migrate_data fuel offset len target s =
      if not (offset % p.block_size == 0)
      then some (io_error, s)
      else migrate_loop fuel offset (len % u32) (128 * 1024) target s

-- The read handles, `ZonedSequentialFile` and `ZonedRandomAccessFile`.
pub record SequentialFile : Type 0 where
  pub rp : ℕ
  pub direct : Bool

unfoldable pub new_sequential_file : Bool → ZoneFile → SequentialFile
new_sequential_file use_direct_reads f = record {
  rp = 0;
  direct = use_direct_reads && not f.is_sparse;
}

unfoldable pub new_random_access_file : Bool → ZoneFile → Bool
new_random_access_file use_direct_reads f = use_direct_reads && not f.is_sparse

unfoldable pub skip : ℕ → ZoneFile → SequentialFile → Status × SequentialFile
skip n f r =
    if leb f.file_size (add64 r.rp n)
    then (Status.invalid_argument, r)
    else (ok, record r { rp = add64 r.rp n })

module _ {D F : Type 0} (p : Platform D F) (fuel : ℕ) where
  -- `ZonedSequentialFile::Read`.
  unfoldable pub sequential_read :
      ℕ → ZoneFile → SequentialFile → D → Option (Status × List ℕ × SequentialFile × D)
  unfolding positioned_read
  sequential_read n f r dev = elim (positioned_read p fuel f r.rp n r.direct dev) [
    | none ↦ none
    | some (st, result, dev') ↦
        some
          (st, result, (if is_ok st then record r { rp = add64 r.rp (length result) } else r), dev')
  ]

  -- `ZonedRandomAccessFile::Read`; the handle is whether reads are direct.
  unfoldable pub random_access_read : ℕ → ℕ → ZoneFile → Bool → D → Read p
  unfolding positioned_read
  random_access_read offset n f direct dev = positioned_read p fuel f offset n direct dev
