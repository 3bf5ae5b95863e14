-- ===== src/MetaLog.antt =====
-- The class `ZenMetaLog` of fs/fs_zenfs.h and fs/fs_zenfs.cc: records with a checksum, in one
-- metadata zone. Memory allocation is taken to succeed.
pub mod Records
use zenfs.Base.{
  ℕ, zero, suc, ◌+◌, ◌-◌, ◌%◌, false, not, ◌||◌, Option, none, some, List, [], ◌++◌, length,
  replicate, if◌then◌else◌, ltb, leb, ◌==◌,
}
use zenfs.Base.Words.{add64, u32}
use zenfs.Status.{Status, ok, io_error, is_ok}
use zenfs.Platform.{Platform}
use zenfs.Zone.{Zone}
use zenfs.Coding.{Coding}
use zenfs.Device.State.{Zbd, meta, append_at}
use zenfs.Device.Io.{read_zbd}

-- The zone is a position among the metadata zones; `bs` is the block size.
pub record MetaLog : Type 0 where
  pub read_pos : ℕ
  pub zone : ℕ
  pub bs : ℕ

-- `zMetaHeaderSize`: a checksum and a length.
abbrev pub meta_header_size : ℕ
meta_header_size = 8

unfoldable pub new_meta_log : ℕ → Zone → ℕ → MetaLog
new_meta_log block_size z i = record { read_pos = z.start; zone = i; bs = block_size }

-- The next multiple of the block size.
unfoldable pub round_up : ℕ → ℕ → ℕ
round_up bs n = if n % bs == 0 then n else n + (bs - n % bs)

module _ (c : Coding) where
  unfoldable pub record_crc : List ℕ → ℕ
  record_crc body =
      c.crc_mask (c.crc_extend (c.crc_extend 0 (c.bytes_of32 (length body % u32))) body)

  -- The buffer that `AddRecord` appends: the checksum, the size, the data, and zeros.
  unfoldable pub encode_record : ℕ → List ℕ → List ℕ
  unfolding record_crc round_up
  encode_record bs body =
      let phys = round_up bs (length body + meta_header_size) in
      c.put_fixed32 (record_crc body)
      ++ (c.put_fixed32 (length body % u32)
          ++ (body ++ replicate (phys - (length body + meta_header_size)) 0))

  module _ {D F : Type 0} (p : Platform D F) where
    unfoldable pub add_record : MetaLog → List ℕ → Zbd D F → Option (Status × Zbd D F)
    unfolding encode_record append_at
    add_record log body s = append_at p (meta log.zone) (encode_record log.bs body) s

    -- What a read gives: a status, the bytes (none at the end of the log), and the new position.
    pub record ReadResult : Type 0 where
      pub status : Status
      pub slice : List ℕ
      pub read_pos : ℕ
      pub dev : D

    -- The loop of `Read`: it goes on until `left` is 0. `none`: it never does.
    unfoldable pub log_read_loop : ℕ → ℕ → ℕ → List ℕ → D → Option ReadResult
    unfolding read_zbd
    log_read_loop zero left pos buf dev = none
    log_read_loop (suc fuel) left pos buf dev =
        if left == 0
        then some (record { status = ok; slice = buf; read_pos = pos; dev = dev })
        else elim (read_zbd p (suc fuel) pos left false dev) [
          | none ↦ none
          | some (none, dev') ↦
              some (record { status = io_error; slice = buf; read_pos = pos; dev = dev' })
          | some (some got, dev') ↦
              log_read_loop fuel (left - length got) (add64 pos (length got)) (buf ++ got) dev'
        ]

    unfoldable pub log_read : ℕ → Zone → ℕ → ℕ → D → Option ReadResult
    unfolding log_read_loop
    log_read fuel z pos to_read dev =
        if leb z.wp pos
        then some (record { status = ok; slice = []; read_pos = pos; dev = dev })
        else if ltb (add64 z.start z.max_capacity) (add64 pos to_read)
        then some (record { status = io_error; slice = []; read_pos = pos; dev = dev })
        else log_read_loop fuel to_read pos [] dev

    abbrev fixed_or_zero : List ℕ → ℕ × List ℕ
    fixed_or_zero input = elim (c.get_fixed32 input) [ none ↦ (0, input) | some r ↦ r ]

    -- The end of `ReadRecord`, once the data has been read.
    unfoldable pub check_record : ℕ → ℕ → ℕ → ReadResult → ReadResult
    unfolding round_up
    check_record bs record_crc record_sz r =
        if not (is_ok r.status)
        then r
        else if not (
            c.crc_extend (c.crc_extend 0 (c.bytes_of32 record_sz)) r.slice
            == c.crc_unmask record_crc)
        then record r { status = io_error }
        else record r { read_pos = round_up bs r.read_pos }

    -- `ReadRecord` of the log in the zone `z`. The slice is empty at the end of the log.
    unfoldable pub read_record : ℕ → Zone → MetaLog → D → Option ReadResult
    unfolding log_read check_record
    read_record fuel z log dev = elim (log_read fuel z log.read_pos meta_header_size dev) [
      | none ↦ none
      | some h ↦
          if not (is_ok h.status) || length h.slice == 0
          then some h
          else (let (record_crc, rest) = fixed_or_zero h.slice in
              let (record_sz, rest') = fixed_or_zero rest in
              elim (log_read fuel z h.read_pos record_sz h.dev) [
                | none ↦ none
                | some r ↦ some (check_record log.bs record_crc record_sz r)
              ])
    ]
