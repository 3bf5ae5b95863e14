-- ===== src/File/Recover.antt =====
-- Recovery of a `ZoneFile` after a crash (fs/io_zenfs.cc): what its active extent had in its zone.
pub mod Segments
pub mod Size
use zenfs.Base.{
  ℕ, zero, suc, ◌+◌, ◌-◌, ◌/◌, ◌%◌, Bool, true, false, not, Option, none, some, List, [], ◌∷◌, ◌++◌,
  length, get_elem?, if◌then◌else◌, ltb, leb, ◌==◌,
}
use zenfs.Base.Words.{add64, sub64, mul64}
use zenfs.Status.{Status, ok, io_error, is_ok}
use zenfs.Platform.{Platform}
use zenfs.Zone.{Zone}
use zenfs.Coding.{Coding}
use zenfs.Device.State.{Zbd}
use zenfs.Device.Io.{read_zbd}
use zenfs.Device.Space.{get_io_zone}
use zenfs.File.{
  ZoneExtent, ZoneFile, no_extent, sparse_header_size, has_active_extent, extents_length, add_used,
}
use zenfs.File.Write.{Op}

abbrev pub add_extent : ℕ → ℕ → ℕ → ZoneFile → ZoneFile
add_extent start len zone f = record f {
  extents = f.extents ++ record { start = start; length = len; zone = zone } ∷ [];
}

-- `ReplaceExtentList` and `SetWriteLifeTimeHint`.
unfoldable pub replace_extent_list : List ZoneExtent → ZoneFile → ZoneFile
replace_extent_list new_list f = record f { extents = new_list }

unfoldable pub set_write_life_time_hint : ℕ → ZoneFile → ZoneFile
set_write_life_time_hint lifetime f = record f { lifetime = lifetime }

-- The blocks that a segment of a sparse file takes, with its header.
unfoldable pub segment_blocks : ℕ → ℕ → ℕ
segment_blocks block_sz extent_length =
    let bytes = add64 extent_length sparse_header_size in
    if bytes % block_sz == 0 then bytes / block_sz else bytes / block_sz + 1

module _ {D F : Type 0} (c : Coding) (p : Platform D F) where
  -- `DecodeFixed64` of a block.
  abbrev pub header : List ℕ → ℕ
  header buffer = elim (c.get_fixed64 buffer) [ none ↦ 0 | some (n, rest) ↦ n ]

  -- The loop of `RecoverSparseExtents`. Fuel: a segment takes a block or more.
  unfoldable pub recover_sparse_extents : ℕ → ℕ → ℕ → ℕ → ZoneFile → Zbd D F → Op D F
  unfolding read_zbd segment_blocks add_used
  recover_sparse_extents zero next_extent_start end_ zone f s = none
  recover_sparse_extents (suc fuel) next_extent_start end_ zone f s =
      if leb end_ next_extent_start
      then some (ok, f, s)
      else elim (read_zbd p (suc fuel) next_extent_start p.block_size false s.dev) [
        | none ↦ none
        | some (none, dev') ↦ some (io_error, f, record s { dev = dev' })
        | some (some buffer, dev') ↦
            let s' = record s { dev = dev' } in
            let extent_length = header buffer in
            if not (length buffer == p.block_size)
            then some (io_error, f, s')
            else if extent_length == 0
            then some (io_error, f, s')
            else recover_sparse_extents fuel
                (add64 next_extent_start
                  (mul64 (segment_blocks p.block_size extent_length) p.block_size))
                end_ zone
                (add_extent (add64 next_extent_start sparse_header_size) extent_length zone f)
                (add_used zone extent_length s')
      ]

  -- The end of `Recover`, when the extents are there.
  unfoldable pub recovered : ZoneFile → ZoneFile
  recovered f = record f { extent_start = no_extent; file_size = extents_length f.extents }

  abbrev pub recovered_if_ok : Op D F → Op D F
  recovered_if_ok none = none
  recovered_if_ok (some (st, f, s)) = some (st, (if is_ok st then recovered f else f), s)

  unfoldable pub recover_in : ℕ → ℕ → Zone → ZoneFile → Zbd D F → Op D F
  unfolding recover_sparse_extents recovered add_used
  recover_in fuel i zone f s =
      let to_recover = sub64 zone.wp f.extent_start in
      if ltb zone.wp f.extent_start
      then some (io_error, f, s)
      else if to_recover == 0
      then some (ok, record f { extent_start = no_extent }, s)
      else if f.is_sparse
      then recovered_if_ok (recover_sparse_extents fuel f.extent_start zone.wp i f s)
      else some (ok, recovered (add_extent f.extent_start to_recover i f), add_used i to_recover s)

  unfoldable pub recover : ℕ → ZoneFile → Zbd D F → Op D F
  unfolding get_io_zone recover_in
  recover fuel f s =
      if not (has_active_extent f) then some (ok, f, s) else elim (get_io_zone p f.extent_start s) [
        | none ↦ some (io_error, f, s)
        | some i ↦ elim (get_elem? s.io_zones i) [
          | none ↦ none
          | some zone ↦ recover_in fuel i zone f s
        ]
      ]
