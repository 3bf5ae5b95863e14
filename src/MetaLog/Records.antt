-- ===== src/MetaLog/Records.antt =====
-- One record of the metadata log (fs/fs_zenfs.cc): `AddRecord` and `ReadRecord` together.
use zenfs.Base.{
  ℕ, ◌+◌, ◌-◌, ◌<◌, ◌≡◌, ◌≢◌, refl, ap, ◌∙◌, ◌⊎◌, inl, inr, some, List, ◌++◌, arith, length,
  replicate, ◌%◌, ◌==◌, Bool-cases,
}
use zenfs.Base.Words.{u32}
use zenfs.Status.{ok, io_error}
use zenfs.Platform.{Platform}
use zenfs.Coding.{Coding, CodingLaws}
use zenfs.MetaLog.{encode_record, record_crc, check_record, ReadResult, round_up, meta_header_size}

-- The checksum of a record's size and data, before it is masked.
abbrev pub checksum : Coding → ℕ → List ℕ → ℕ
checksum c size body = c.crc_extend (c.crc_extend 0 (c.bytes_of32 size)) body

module _ {D F : Type 0} (p : Platform D F) (c : Coding) (l : CodingLaws c) where
  exact_size : (body : List ℕ) → length body < u32 → length body % u32 ≡ length body
  exact_size body h = omega arith

  unmasked :
      (body : List ℕ)
      → length body < u32
      → c.crc_unmask (record_crc c body) ≡ checksum c (length body) body
  unfolding record_crc
  unmasked body h =
      l.unmask-mask (checksum c (length body % u32) body)
        (l.crc_word (c.crc_extend 0 (c.bytes_of32 (length body % u32))) body)
      ∙ ap (λ n. checksum c n body) (exact_size body h)

  judged :
      (bs crc : ℕ) (body : List ℕ) (r : ReadResult c p)
      → r.status ≡ ok
      → c.crc_unmask crc ≡ checksum c (length body) body
      → ((checksum c (length body) r.slice ≡ checksum c (length body) body)
          × (check_record c p bs crc (length body) r
              ≡ record r { read_pos = round_up bs r.read_pos }))
        ⊎ ((checksum c (length body) r.slice ≢ checksum c (length body) body)
            × (check_record c p bs crc (length body) r ≡ record r { status = io_error }))
  unfolding check_record
  judged bs crc body r good e =
      elim (Bool-cases (checksum c (length body) r.slice == checksum c (length body) body)) [
        | inl same ↦ inl (ground arith, rw (check_record, good, e, same) refl)
        | inr other ↦ inr ((λ q. ground arith), rw (check_record, good, e, other) refl)
      ]

  -- The header that `AddRecord` writes in front of the data is read back as the checksum and the size
  -- of the record. With these `ReadRecord` accepts what it has read, and goes on to the next block
  -- boundary, if and only if the data that it has read has the checksum of the data that was written.
  pub check_record-encode_record :
      (bs : ℕ) (body : List ℕ) (r : ReadResult c p)
      → length body < u32
      → r.status ≡ ok
      → (rest padding : List ℕ) × (c.get_fixed32 (encode_record c bs body)
          ≡ some (record_crc c body, rest))
        × (c.get_fixed32 rest ≡ some (length body, body ++ padding))
        × (((checksum c (length body) r.slice ≡ checksum c (length body) body)
              × (check_record c p bs (record_crc c body) (length body) r
                  ≡ record r { read_pos = round_up bs r.read_pos }))
            ⊎ ((checksum c (length body) r.slice ≢ checksum c (length body) body)
                × (check_record c p bs (record_crc c body) (length body) r
                    ≡ record r { status = io_error })))
  unfolding encode_record
  check_record-encode_record bs body r h good =
      let zeros =
        replicate (round_up bs (length body + meta_header_size) - (length body + meta_header_size))
          0 in
      let size = length body % u32 in
      (
        c.put_fixed32 size ++ (body ++ zeros),
        zeros,
        l.get-put_fixed32 (record_crc c body) (c.put_fixed32 size ++ (body ++ zeros))
            (unfold record_crc in l.mask_word (checksum c size body)),
        l.get-put_fixed32 size (body ++ zeros) (omega arith)
            ∙ ap (λ n. some (n, body ++ zeros)) (exact_size body h),
        judged bs (record_crc c body) body r good (unmasked body h),
      )
