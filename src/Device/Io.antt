-- ===== src/Device/Io.antt =====
-- Reading through `ZonedBlockDevice` (fs/zbd_zenfs.cc).
use zenfs.Base.{
  ℕ, zero, suc, Bool, Option, none, some, List, [], ◌++◌, length, if◌then◌else◌, ◌==◌, ltb, ◌%◌,
  ◌^◌,
}
use zenfs.Base.Words.{u32, sub32, add64}
use zenfs.Status.{Status, ok, io_error}
use zenfs.Platform.{Platform, bytes, interrupted, read_error}

-- Where the negative values of an `int` begin.
abbrev pub int_min : ℕ
int_min = 2 ^ 31

module _ {D F : Type 0} (p : Platform D F) where
  -- A count that is an `int`, as its 32 bits; it is negative from `int_min` on.
  abbrev returned : List ℕ → Option (List ℕ)
  returned buf = if ltb (length buf % u32) int_min then some buf else none

  -- The loop of `Read`; `left` is an `int`. The result is `none` for a negative return value, and else
  -- the bytes read; the outer `none` says that the fuel ran out, by calls that were interrupted.
  unfoldable pub read_loop : ℕ → ℕ → ℕ → Bool → List ℕ → D → Option (Option (List ℕ) × D)
  read_loop zero left offset direct buf dev = none
  read_loop (suc fuel) left offset direct buf dev =
      if left == 0
      then some (returned buf, dev)
      else (let (reply, dev') = p.read dev offset left direct in
          elim reply [
            | interrupted ↦ read_loop fuel left offset direct buf dev'
            | read_error ↦ some (none, dev')
            | bytes got ↦
                if length got == 0
                then some (returned buf, dev')
                else read_loop fuel (sub32 left (length got)) (add64 offset (length got)) direct
                    (buf ++ got) dev'
          ])

  -- `Read(char *buf, uint64_t offset, int n, bool direct)`: a count of bytes is cut to the 32 bits of
  -- an `int`. `Read` of no bytes returns the -1 that its result starts with.
  unfoldable pub read_zbd : ℕ → ℕ → ℕ → Bool → D → Option (Option (List ℕ) × D)
  unfolding read_loop
  read_zbd fuel offset size direct dev =
      let n = size % u32 in
      if n == 0 then some (none, dev) else read_loop fuel n offset direct [] dev

  unfoldable pub invalidate_cache_zbd : ℕ → ℕ → D → Status × D
  invalidate_cache_zbd pos size dev =
      let (done, dev') = p.invalidate_cache dev pos size in (if done then ok else io_error, dev')
