-- ===== src/File/Writable/Buffer.antt =====
-- `BufferedWrite` of `ZonedWritableFile` (fs/io_zenfs.cc).
use zenfs.Base.{
  ℕ, ◌≤◌, ◌<◌, ◌≡◌, refl, sym, ap, subst, ◌∙◌, inl, inr, true, none, some, List, [], ◌∷◌, arith,
  length, if◌then◌else◌, ◌==◌, Bool-cases,
}
use mathlib.Core.List.{append-nil}
use zenfs.Base.Words.{u32, u64}
use zenfs.Status.{is_ok}
use zenfs.Platform.{Platform}
use zenfs.Coding.{Coding}
use zenfs.Device.State.{Zbd}
use zenfs.File.{ZoneFile}
use zenfs.File.Write.{Op, sparse_append, buffered_append}
use zenfs.File.Writable.{
  WritableFile, with_file, flushed, buffered_write, flush_buffer, append_writable,
}
use zenfs.File.Writable.Loop.{Appends, no_more, next, Flushed, Written, buffered_write-Written}

nil_of : (l : List ℕ) → (length l == 0) ≡ true → l ≡ []
nil_of [] e = refl
nil_of (x ∷ l) e = absurd (ground arith)

flushed_empty : (w : WritableFile) → (length w.buffer == 0) ≡ true → w.wp < u64 → w ≡ flushed w
flushed_empty w empty wp =
    let nil = nil_of w.buffer empty in
    ap (λ b. record w { buffer = b }) nil
    ∙ ap (λ k. record w { buffer = []; wp = k }) (omega (arith, ap length nil))

module _ {D F : Type 0} (c : Coding) (p : Platform D F) (persist : ZoneFile → Zbd D F → Op D F)
    (fuel : ℕ) where
  -- The call of the `ZoneFile` that `FlushBuffer` makes.
  abbrev pub append_buffer : List ℕ → ZoneFile → Zbd D F → Op D F
  append_buffer buffer f s =
      if f.is_sparse
      then sparse_append p persist fuel c fuel buffer (length buffer) f s
      else buffered_append p persist fuel fuel buffer (length buffer) f s

  -- `FlushBuffer` appends the buffer to the file, and leaves it empty with the write pointer moved by
  -- its bytes; or it leaves the handle as it was.
  pub flush_buffer-Flushed :
      (w : WritableFile) (f : ZoneFile) (s : Zbd D F)
      → w.wp < u64
      → Flushed append_buffer
          (flush_buffer c p persist fuel)
          w
          f
          s
          (flush_buffer c p persist fuel w f s)
  unfolding flush_buffer
  flush_buffer-Flushed w f s wp = elim (Bool-cases (length w.buffer == 0)) [
    | inl q ↦
        rw (flush_buffer, q)
          (inl (
            refl,
            flushed_empty w q wp,
            subst (λ b. Appends append_buffer b f s f s) (sym (nil_of w.buffer q)) no_more,
          ))
    | inr q ↦ rw (flush_buffer, q) (appended (append_buffer w.buffer f s) refl)
  ]
    where
      appended :
          (r : Op D F)
          → append_buffer w.buffer f s ≡ r
          → Flushed append_buffer (flush_buffer c p persist fuel) w f s (with_file flushed w r)
      appended none eq = tt
      appended (some (st, f', s')) eq = elim (Bool-cases (is_ok st)) [
        | inl q ↦ rw q (
            inl (
              refl,
              refl,
              subst (λ b. Appends append_buffer b f s f' s') (append-nil w.buffer)
                  (next eq q no_more),
            ))
        | inr q ↦ rw q (inr (refl, refl))
      ]

  -- `Append` to a buffered file, of less than 2 ^ 32 bytes, never fills the buffer beyond its size. If
  -- its status is good, the bytes that `FlushBuffer` has appended to the file, buffer by buffer and
  -- each with a good status, followed by the buffer, are what was in the buffer followed by the data;
  -- they have led from the file and the device before to those after; and the write pointer has moved
  -- by their number. It returns unless one of its calls of `FlushBuffer` does not, on the bytes behind
  -- those appended. The buffer has room for at least one byte.
  pub append_writable-Written :
      (slice : List ℕ) (w : WritableFile) (f : ZoneFile) (s : Zbd D F)
      → w.buffered ≡ true
      → length slice < u32
      → length w.buffer ≤ w.buffer_sz
      → 0 < w.buffer_sz
      → w.buffer_sz < u32
      → w.wp < u64
      → Written append_buffer
          (flush_buffer c p persist fuel)
          w
          slice
          f
          s
          (append_writable c p persist fuel slice w f s)
  unfolding append_writable
  append_writable-Written slice w f s buffered short fit room word wp =
      let run : append_writable c p persist fuel slice w f s
          ≡ buffered_write (flush_buffer c p persist fuel) slice w f s =
        (rw (append_writable, buffered) refl) in
      subst (Written append_buffer (flush_buffer c p persist fuel) w slice f s) (sym run) (
        buffered_write-Written append_buffer (flush_buffer c p persist fuel) flush_buffer-Flushed
          slice w f s short fit room word wp)
