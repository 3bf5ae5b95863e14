-- ===== src/File/Writable.antt =====
-- The class `ZonedWritableFile` of fs/io_zenfs.h and fs/io_zenfs.cc: a buffer in front of a `ZoneFile`.
pub mod Loop
pub mod Buffer
use zenfs.Base.{
  ℕ, zero, suc, ◌+◌, ◌-◌, ◌*◌, ◌%◌, Bool, true, false, not, ◌&&◌, Option, none, some, List, [], ◌∷◌,
  ◌++◌, take, drop, length, if◌then◌else◌, ltb, ◌==◌,
}
use zenfs.Base.Words.{u32, add64, sub64, sub32}
use zenfs.Status.{Status, ok, io_error, is_ok}
use zenfs.Platform.{Platform}
use zenfs.Coding.{Coding}
use zenfs.Device.State.{Zbd}
use zenfs.Device.Tokens.{set_zone_deferred_status}
use zenfs.File.{ZoneFile, sparse_header_size}
use zenfs.File.Write.{Op, push_extent, close_wr, buffered_append, sparse_append, append_file}

-- `buffer` has the bytes of the buffer up to `buffer_pos`.
pub record WritableFile : Type 0 where
  pub buffered : Bool
  pub buffer : List ℕ
  pub buffer_sz : ℕ
  pub wp : ℕ
  pub is_open : Bool

abbrev pub buffer_pos : WritableFile → ℕ
buffer_pos w = length w.buffer

-- The room of the buffer: 1 MiB, and for a sparse file that less the header of a segment.
unfoldable pub buffer_room : ℕ → Bool → ℕ
buffer_room block_sz sparse =
    if sparse
    then sub64 (sub64 (1024 * 1024 + block_sz) sparse_header_size) block_sz
    else 1024 * 1024

unfoldable pub new_writable_file : ℕ → Bool → ZoneFile → WritableFile
unfolding buffer_room
new_writable_file block_sz buffered f = record {
  buffered = buffered;
  buffer = [];
  buffer_sz = if buffered then buffer_room block_sz f.is_sparse else 0;
  wp = f.file_size;
  is_open = true;
}

-- `Truncate`.
unfoldable pub truncate : ℕ → ZoneFile → Status × ZoneFile
truncate size f = (ok, record f { file_size = size })

abbrev pub WriteOp : Type 0 → Type 0 → Type 0
WriteOp D F = Option (Status × WritableFile × ZoneFile × Zbd D F)

abbrev pub flushed : WritableFile → WritableFile
flushed w = record w { wp = add64 w.wp (length w.buffer); buffer = [] }

-- The room left in the buffer; after a flush, all of it.
abbrev pub buffer_left : WritableFile → ℕ
buffer_left w = sub32 w.buffer_sz (buffer_pos w)

abbrev pub put : ℕ → List ℕ → WritableFile → WritableFile
put n data_ w = record w { buffer = w.buffer ++ take n data_ }

abbrev pub to_buffer : ℕ → WritableFile → ℕ
to_buffer data_left w = if ltb (buffer_left w) data_left then buffer_left w else data_left

module _ {D F : Type 0} where
  -- The outcome of an operation of the `ZoneFile`; `update` is for success.
  abbrev pub with_file : (WritableFile → WritableFile) → WritableFile → Op D F → WriteOp D F
  with_file update w none = none
  with_file update w (some (st, f, s)) = some (st, (if is_ok st then update w else w), f, s)

  abbrev pub then_with :
      WriteOp D F → (WritableFile → ZoneFile → Zbd D F → WriteOp D F) → WriteOp D F
  then_with none k = none
  then_with (some (st, w, f, s)) k = if is_ok st then k w f s else some (st, w, f, s)

  module _ (flush : WritableFile → ZoneFile → Zbd D F → WriteOp D F) where
    -- The loop of `BufferedWrite`, with `FlushBuffer` as `flush`. Fuel: a round takes a byte or more.
    unfoldable pub buffered_write_loop :
        ℕ → List ℕ → WritableFile → ZoneFile → Zbd D F → WriteOp D F
    buffered_write_loop zero left w f s = none
    buffered_write_loop (suc rounds) left w f s =
        if length left == 0
        then some (ok, w, f, s)
        else then_with (if buffer_left w == 0 then flush w f s else some (ok, w, f, s)) (λ w' f' s'.
          let n = to_buffer (length left) w' in
          buffered_write_loop rounds (drop n left) (put n left w') f' s')

    -- `BufferedWrite`: the count of bytes is cut to 32 bits.
    unfoldable pub buffered_write : List ℕ → WritableFile → ZoneFile → Zbd D F → WriteOp D F
    unfolding buffered_write_loop
    buffered_write slice w f s =
        let data_left = length slice % u32 in
        buffered_write_loop (suc data_left) (take data_left slice) w f s

module _ {D F : Type 0} (c : Coding) (p : Platform D F) (persist : ZoneFile → Zbd D F → Op D F)
    (fuel : ℕ) where
  unfoldable pub flush_buffer : WritableFile → ZoneFile → Zbd D F → WriteOp D F
  unfolding sparse_append buffered_append
  flush_buffer w f s =
      if buffer_pos w == 0
      then some (ok, w, f, s)
      else with_file flushed w (
          if f.is_sparse
          then sparse_append p persist fuel c fuel w.buffer (buffer_pos w) f s
          else buffered_append p persist fuel fuel w.buffer (buffer_pos w) f s)

  unfoldable pub data_sync : WritableFile → ZoneFile → Zbd D F → WriteOp D F
  unfolding flush_buffer push_extent
  data_sync w f s =
      if w.buffered
      then then_with (flush_buffer w f s) (λ w' f' s'.
        if f'.is_sparse then some (ok, w', f', s') else with_file (λ v. v) w' (persist f' s'))
      else (let (f', s') = push_extent f s in some (ok, w, f', s'))

  unfoldable pub fsync : WritableFile → ZoneFile → Zbd D F → WriteOp D F
  unfolding data_sync
  fsync w f s = then_with (data_sync w f s) (λ w' f' s'.
      if w'.buffered && not f'.is_sparse
      then some (ok, w', f', s')
      else with_file (λ v. v) w' (persist f' s'))

  unfoldable pub range_sync : ℕ → ℕ → WritableFile → ZoneFile → Zbd D F → WriteOp D F
  unfolding data_sync
  range_sync offset nbytes w f s =
      if ltb w.wp (add64 offset nbytes) then data_sync w f s else some (ok, w, f, s)

  unfoldable pub close_internal : WritableFile → ZoneFile → Zbd D F → WriteOp D F
  unfolding data_sync close_wr
  close_internal w f s =
      if not w.is_open
      then some (ok, w, f, s)
      else then_with (data_sync w f s) (λ w' f' s'.
        with_file (λ v. record v { is_open = false }) w' (close_wr p persist fuel f' s'))

  -- `~ZonedWritableFile`: a failure is kept by the device.
  unfoldable pub end_writable_file : WritableFile → ZoneFile → Zbd D F → Option (ZoneFile × Zbd D F)
  unfolding close_internal set_zone_deferred_status
  end_writable_file w f s = elim (close_internal w f s) [
    | none ↦ none
    | some (st, w', f', s') ↦ some (f', (if is_ok st then s' else set_zone_deferred_status st s'))
  ]

  unfoldable pub append_writable : List ℕ → WritableFile → ZoneFile → Zbd D F → WriteOp D F
  unfolding buffered_write append_file
  append_writable data_ w f s =
      if w.buffered
      then buffered_write flush_buffer data_ w f s
      else with_file (λ v. record v { wp = add64 v.wp (length data_) }) w
          (append_file p persist fuel fuel data_ f s)

  unfoldable pub positioned_append : List ℕ → ℕ → WritableFile → ZoneFile → Zbd D F → WriteOp D F
  unfolding append_writable
  positioned_append data_ offset w f s =
      if not (offset == w.wp) then some (io_error, w, f, s) else append_writable data_ w f s
