-- ===== src/File/Read/Whole.antt =====
-- `PositionedRead` (fs/io_zenfs.cc) and the bytes of a file.
use zenfs.Base.{
  ℕ, ◌%◌, suc, ◌+◌, ◌-◌, ◌≤◌, ◌<◌, ◌≡◌, refl, sym, ap, subst, ◌∙◌, inl, inr, Bool, true, false,
  some, List, [], arith, take, drop, if◌then◌else◌, leb, ltb, min,
}
use zenfs.Base.Words.{u64, add64, sub64}
use zenfs.Status.{ok}
use zenfs.Platform.{Platform}
use zenfs.File.{ZoneExtent, ZoneFile, get_extent}
use zenfs.File.Extents.{total, Located, get_extent-Located}
use zenfs.Device.Io.{int_min}
use zenfs.File.Read.{read_extents, positioned_read}
use zenfs.File.Read.Contents.{contents, ReadsWhole, AllBelow, below-Located, AllStart}
use zenfs.File.Read.Rounds.{reads_on}

-- What the file's last byte leaves of a request.
read_size :
    (file_size offset n : ℕ)
    → offset < file_size
    → file_size < u64
    → offset + n < u64
    → (if ltb file_size (add64 offset n) then sub64 file_size offset else n)
      ≡ min n (file_size - offset)
read_size file_size offset n lt small fits = ground arith

module _ {D F : Type 0} (p : Platform D F) (m : ℕ → ℕ) (dev : D) (whole : ReadsWhole p m dev)
    (limit fuel offset n : ℕ) (direct : Bool) (f : ZoneFile) where
  read_behind :
      f.file_size ≤ offset → positioned_read p fuel f offset n direct dev ≡ some (ok, [], dev)
  unfolding positioned_read
  read_behind le = let past : leb f.file_size offset ≡ true = ground arith in rw past refl

  positioned_read-Located :
      (l : Located offset f.extents)
      → offset < f.file_size
      → f.file_size < u64
      → offset + n < u64
      → (l.extent).start + (offset - total l.before) < u64
      → positioned_read p fuel f offset n direct dev
        ≡ read_extents p fuel f.extents offset
            (min n (f.file_size - offset))
            direct
            []
            ((l.extent).start + (offset - total l.before))
            (add64 (l.extent).start (l.extent).length)
            dev
  unfolding positioned_read
  positioned_read-Located l lt small fits low =
      let within : leb f.file_size offset ≡ false = ground arith in
      let start : add64 (l.extent).start (offset - total l.before)
          ≡ (l.extent).start + (offset - total l.before) =
        omega arith in
      rw (within, l.found, start, read_size f.file_size offset n lt small fits) refl

-- The bytes that a read of a file at a position shall give.
abbrev pub file_piece : (ℕ → ℕ) → ZoneFile → ℕ → ℕ → List ℕ
file_piece m f offset n = take (min n (f.file_size - offset)) (drop offset (contents m f.extents))

-- Where the extents start, and where a position of the file lies on the device, are blocks.
abbrev pub Boundaries : ℕ → List ZoneExtent → ℕ → Type 0
Boundaries bs es offset =
    AllStart bs es
    × ((e : ZoneExtent) (dev_offset : ℕ)
        → get_extent offset es ≡ some (e, dev_offset)
        → dev_offset % bs ≡ 0)

-- PositionedRead of a file whose size is the sum of its extents, on a device that reads what it is
-- asked for, returns with a good status, the device as it was, and the bytes that the extents, one
-- behind the other, hold from the offset on: as many as were asked for, or up to the end of the file.
-- For a direct read, all extents start at a block boundary, and so does the read on the device. No
-- address, with the file's size and a block behind it, leaves 64 bits, nor does the end of the
-- request; its size with a block behind it is an `int`. The fuel is two more than the bytes asked for.
pub positioned_read-file_piece :
    {D F : Type 0} (p : Platform D F) (m : ℕ → ℕ) (dev : D) (limit k offset n : ℕ) (direct : Bool)
    (f : ZoneFile)
    → ReadsWhole p m dev
    → f.file_size ≡ total f.extents
    → AllBelow limit f.extents
    → limit + total f.extents + p.block_size < u64
    → offset + n < u64
    → n ≤ k
    → 0 < p.block_size
    → n + p.block_size < int_min
    → (direct ≡ true → Boundaries p.block_size f.extents offset)
    → positioned_read p (suc (suc k)) f offset n direct dev
      ≡ some (ok, file_piece m f offset n, dev)
positioned_read-file_piece p m dev limit k offset n direct f whole size below small fits enough
      positive word direct_ok =
    elim (get_extent-Located f.extents offset) [
      | inl (past, _) ↦
          let nothing : min n (f.file_size - offset) ≡ 0 = ground arith in
          read_behind p m dev whole limit (suc (suc k)) offset n direct f (omega arith)
          ∙ ap (λ j. some (ok, take j (drop offset (contents m f.extents)), dev)) (sym nothing)
      | inr (lt, l) ↦
          let end_le =
            below-Located limit l.before l.extent l.after (subst (AllBelow limit) l.split below) in
          let inside = l.inside in
          let reached = l.reached in
          let start : (l.extent).start + (offset - total l.before)
              ≡ add64 (l.extent).start (offset - total l.before) =
            omega arith in
          let r_sz = min n (f.file_size - offset) in
          let whole_size : r_sz - 0 ≡ r_sz = omega arith in
          let short : r_sz ≤ k = ground arith in
          let in_file : offset + r_sz ≤ total f.extents = ground arith in
          positioned_read-Located p m dev whole limit (suc (suc k)) offset n direct f l
            (omega arith) (omega arith) fits (omega arith)
          ∙ reads_on p m dev whole f.extents offset r_sz direct limit below in_file small positive
              (ground arith) (λ d. (direct_ok d).0) k offset [] l (omega arith) (omega arith)
              (omega arith)
              (λ d.
                ap (λ o. o % p.block_size) start
                ∙ (direct_ok d).1 l.extent (add64 (l.extent).start (offset - total l.before))
                    l.found)
          ∙ ap (λ j. some (ok, take j (drop offset (contents m f.extents)), dev)) whole_size
    ]
