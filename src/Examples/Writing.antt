-- ===== src/Examples/Writing.antt =====
-- Examples of the theorems on buffered writing, on recovery.
use zenfs.Base.{ℕ, ◌≡◌, refl, true, ◌%◌, subst, ap, none, Option, some, [], ◌∷◌, arith}
use zenfs.Status.{Status, ok}
use zenfs.Coding.Sample.{sample_coding}
use zenfs.File.{ZoneExtent, get_extent, ZoneFile, new_file}
use zenfs.File.Writable.{WritableFile, append_writable, flush_buffer}
use zenfs.File.Writable.Loop.{Written}
use zenfs.File.Writable.Buffer.{append_buffer, append_writable-Written}
use zenfs.Examples.Sample.{platform, zbd}
use zenfs.Platform.{Platform, bytes}
use zenfs.File.Read.{positioned_read}
use zenfs.File.Read.Contents.{ReadsWhole, bytes_at}
use zenfs.File.Read.Whole.{Boundaries, file_piece, positioned_read-file_piece}

-- A buffer of four bytes, with two bytes in it.
abbrev handle : WritableFile
handle = record { buffered = true; buffer = 1 ∷ 2 ∷ []; buffer_sz = 4; wp = 10; is_open = true }

append_writable-Written_example :
    Written
      (append_buffer sample_coding platform (λ f s. some (ok, f, s)) 9)
      (flush_buffer sample_coding platform (λ f s. some (ok, f, s)) 9)
      handle
      (3 ∷ 4 ∷ 5 ∷ [])
      (new_file 1)
      zbd
      (append_writable sample_coding platform
        (λ f s. some (ok, f, s))
        9
        (3 ∷ 4 ∷ 5 ∷ [])
        handle
        (new_file 1)
        zbd)
append_writable-Written_example =
    append_writable-Written sample_coding platform (λ f s. some (ok, f, s)) 9 (3 ∷ 4 ∷ 5 ∷ [])
      handle (new_file 1) zbd refl (omega arith) (omega arith) (omega arith) (omega arith)
      (omega arith)

abbrev append_status : Option Status
append_status =
    elim (append_writable sample_coding platform (λ f s. some (ok, f, s)) 9 (3 ∷ 4 ∷ 5 ∷ []) handle
      (new_file 1) zbd) [ none ↦ none | some (st, w, f, s) ↦ some st ]

appends : append_status ≡ some ok
unfolding append_writable new_file flush_buffer
appends = refl

-- 1024 bytes are in the zone, and the active extent starts at 512.
abbrev crashed : ZoneFile
crashed = record (new_file 1) { extent_start = 512 }

-- A device that holds at each address the address, and a file of two extents on it.
abbrev readable : Platform ℕ ℕ
readable = record platform {
  backend = record platform.backend {
    read = λ d pos size direct. (bytes (bytes_at (λ address. address) pos size), d);
  };
}

readable-ReadsWhole : ReadsWhole readable (λ address. address) 7
readable-ReadsWhole = record { reads = λ offset n direct positive word blocks. refl }

abbrev two_extents : ZoneFile
two_extents = record (new_file 1) {
  extents =
      record { start = 4096; length = 600; zone = 0 }
      ∷ record { start = 8192; length = 5; zone = 1 }
      ∷ [];
  file_size = 605;
}

abbrev offset_of : Option (ZoneExtent × ℕ) → ℕ
offset_of none = 0
offset_of (some (e, dev_offset)) = dev_offset

two_extents-Boundaries : Boundaries 512 two_extents.extents 512
unfolding get_extent
two_extents-Boundaries =
    ((refl, (refl, tt)), λ e dev_offset found. subst (λ o. o % 512 ≡ 0) (ap offset_of found) refl)

positioned_read-file_piece_example :
    positioned_read readable 102 two_extents 512 100 true 7
    ≡ some (ok, file_piece (λ address. address) two_extents 512 100, 7)
positioned_read-file_piece_example =
    positioned_read-file_piece readable (λ address. address) 7 131072 100 512 100 true two_extents
      readable-ReadsWhole refl (omega arith, (omega arith, tt)) (omega arith) (omega arith)
      (omega arith) (omega arith) (omega arith) (λ d. two_extents-Boundaries)

two_extents_piece :
    file_piece (λ address. address) two_extents 598 10
    ≡ 4694 ∷ 4695 ∷ 8192 ∷ 8193 ∷ 8194 ∷ 8195 ∷ 8196 ∷ []
two_extents_piece = refl
