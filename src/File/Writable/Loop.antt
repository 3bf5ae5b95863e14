-- ===== src/File/Writable/Loop.antt =====
-- The loop of `BufferedWrite` (fs/io_zenfs.cc), for any `FlushBuffer` that appends its buffer.
use zenfs.Base.{
  ℕ, zero, suc, ◌+◌, ◌-◌, ◌%◌, ◌≤◌, ◌<◌, ◌≡◌, refl, sym, ap, subst, ◌∙◌, ◌⊎◌, inl, inr, true, false,
  none, some, List, [], ◌∷◌, ◌++◌, arith, take, drop, length, length-append, length-take,
  length-drop, take-append-drop, ltb, ◌==◌, Bool-cases,
}
use mathlib.Core.List.{append_assoc, append-nil}
use zenfs.Base.Words.{u32, u64}
use zenfs.Status.{Status, is_ok}
use zenfs.Device.State.{Zbd}
use zenfs.File.{ZoneFile}
use zenfs.File.Write.{Op}
use zenfs.File.Writable.{
  WritableFile, WriteOp, flushed, buffer_left, put, to_buffer, then_with, buffered_write_loop,
  buffered_write,
}

take_all : (l : List ℕ) → take (length l) l ≡ l
take_all [] = refl
take_all (x ∷ l) = ap (◌∷◌ x) (take_all l)

-- Buffers that were appended to the file one behind the other, each with a good status: their bytes,
-- and the file and the device before and after.
pub data Appends {D F : Type 0} (write : List ℕ → ZoneFile → Zbd D F → Op D F)
    : List ℕ → ZoneFile → Zbd D F → ZoneFile → Zbd D F → Type 0 where
  no_more : {f : ZoneFile} {s : Zbd D F} → Appends write [] f s f s
  next :
      {b out : List ℕ} {st : Status} {f f' f'' : ZoneFile} {s s' s'' : Zbd D F}
      → write b f s ≡ some (st, f', s')
      → is_ok st ≡ true
      → Appends write out f' s' f'' s''
      → Appends write (b ++ out) f s f'' s''

module _ {D F : Type 0} (write : List ℕ → ZoneFile → Zbd D F → Op D F) where
  Appends-append :
      {a b : List ℕ} {f f' f'' : ZoneFile} {s s' s'' : Zbd D F}
      → Appends write a f s f' s'
      → Appends write b f' s' f'' s''
      → Appends write (a ++ b) f s f'' s''
  Appends-append no_more q = q
  Appends-append {b = c} {f = f} {f'' = f''} {s = s} {s'' = s''}
        (next {b = a} {out = out} one good p) q =
      subst (λ l. Appends write l f s f'' s'') (sym (append_assoc a out c))
        (next one good (Appends-append p q))

module _ {D F : Type 0} (write : List ℕ → ZoneFile → Zbd D F → Op D F)
    (flush : WritableFile → ZoneFile → Zbd D F → WriteOp D F) where
  -- What a flush leaves of the handle: all of the buffer is appended, or the handle is as before.
  abbrev pub Flushed : WritableFile → ZoneFile → Zbd D F → WriteOp D F → Type 0
  Flushed w f s none = Unit
  Flushed w f s (some (st, w', f', s')) =
      ((is_ok st ≡ true) × (w' ≡ flushed w) × Appends write w.buffer f s f' s')
      ⊎ ((is_ok st ≡ false) × (w' ≡ w))

  -- A flush that does not return, after the bytes `out` have been appended.
  pub record Unflushed (w : WritableFile) (left : List ℕ) (f : ZoneFile) (s : Zbd D F)
      : Type 0 where
    pub out : List ℕ
    pub handle : WritableFile
    pub file : ZoneFile
    pub zbd : Zbd D F
    pub appended : Appends write out f s file zbd
    pub rest : List ℕ
    pub no_byte_lost : out ++ (handle.buffer ++ rest) ≡ w.buffer ++ left
    pub no_return : flush handle file zbd ≡ none

  -- The bytes `out` have been appended; what was in the buffer and the data are they and the buffer.
  pub record Buffered (w : WritableFile) (left : List ℕ) (f : ZoneFile) (s : Zbd D F)
      (w' : WritableFile) (f' : ZoneFile) (s' : Zbd D F) : Type 0 where
    pub out : List ℕ
    pub appended : Appends write out f s f' s'
    pub no_byte_lost : out ++ w'.buffer ≡ w.buffer ++ left
    pub counted : w'.wp ≡ (w.wp + length out) % u64

  abbrev pub Fits : WritableFile → WritableFile → Type 0
  Fits w w' = (length w'.buffer ≤ w'.buffer_sz) × (w'.buffer_sz ≡ w.buffer_sz)

  abbrev pub Written : WritableFile → List ℕ → ZoneFile → Zbd D F → WriteOp D F → Type 0
  Written w left f s none = Unflushed w left f s
  Written w left f s (some (st, w', f', s')) =
      Fits w w' × ((is_ok st ≡ false) ⊎ Buffered w left f s w' f' s')

  -- A handle after a step, with the data that is left.
  Written-from :
      (w v : WritableFile) (left rest gone : List ℕ) (f f1 : ZoneFile) (s s1 : Zbd D F)
      (r : WriteOp D F)
      → w.wp < u64
      → v.buffer_sz ≡ w.buffer_sz
      → gone ++ (v.buffer ++ rest) ≡ w.buffer ++ left
      → v.wp ≡ (w.wp + length gone) % u64
      → Appends write gone f s f1 s1
      → Written v rest f1 s1 r
      → Written w left f s r
  Written-from w v left rest gone f f1 s s1 none wp sz same wp_v trace h = record {
    out = gone ++ h.out;
    handle = h.handle;
    file = h.file;
    zbd = h.zbd;
    appended = Appends-append write trace h.appended;
    rest = h.rest;
    no_byte_lost =
        append_assoc gone h.out ((h.handle).buffer ++ h.rest)
        ∙ ap (λ l. gone ++ l) h.no_byte_lost
        ∙ same;
    no_return = h.no_return;
  }
  Written-from w v left rest gone f f1 s s1 (some (st, w', f', s')) wp sz same wp_v trace
        ((fit, sz'), inl bad) =
      ((fit, sz' ∙ sz), inl bad)
  Written-from w v left rest gone f f1 s s1 (some (st, w', f', s')) wp sz same wp_v trace
        ((fit, sz'), inr b) =
      (
        (fit, sz' ∙ sz),
        inr (record {
          out = gone ++ b.out;
          appended = Appends-append write trace b.appended;
          no_byte_lost =
              append_assoc gone b.out w'.buffer ∙ ap (λ l. gone ++ l) b.no_byte_lost ∙ same;
          counted = (let q = b.counted in omega (arith, length-append gone b.out, q, wp_v));
        }),
      )

  -- A round with room in the buffer: `put` takes at least one byte.
  put-length :
      (v : WritableFile) (left : List ℕ)
      → length v.buffer < v.buffer_sz
      → v.buffer_sz < u32
      → 0 < length left
      → let n = to_buffer (length left) v in
        (0 < n) × (n ≤ length left) × (length v.buffer + n ≤ v.buffer_sz)
  put-length v left room word some_left =
      let gap : buffer_left v ≡ v.buffer_sz - length v.buffer = omega arith in
      elim (Bool-cases (ltb (buffer_left v) (length left))) [
        | inl q ↦ rw q (omega (arith, gap), ground (arith, gap), omega (arith, gap))
        | inr q ↦ rw q (some_left, omega arith, ground (arith, gap))
      ]

  module _
      (law : (w : WritableFile) (f : ZoneFile) (s : Zbd D F)
        → w.wp < u64
        → Flushed w f s (flush w f s)) where
    -- The loop, where the buffer has room.
    abbrev rest_of : ℕ → List ℕ → WritableFile → ZoneFile → Zbd D F → WriteOp D F
    rest_of rounds left v f s =
        let n = to_buffer (length left) v in
        buffered_write_loop flush rounds (drop n left) (put n left v) f s

    -- The loop with `rounds` rounds does what it should, for data with less bytes.
    abbrev Writes : ℕ → Type 0
    Writes rounds =
        (left : List ℕ) (w : WritableFile) (f : ZoneFile) (s : Zbd D F)
        → length left < rounds
        → length w.buffer ≤ w.buffer_sz
        → 0 < w.buffer_sz
        → w.buffer_sz < u32
        → w.wp < u64
        → Written w left f s (buffered_write_loop flush rounds left w f s)

    rest_of-Written :
        (rounds : ℕ) (left : List ℕ) (v : WritableFile) (f : ZoneFile) (s : Zbd D F)
        → Writes rounds
        → 0 < length left
        → length left ≤ rounds
        → length v.buffer < v.buffer_sz
        → v.buffer_sz < u32
        → v.wp < u64
        → Written v left f s (rest_of rounds left v f s)
    rest_of-Written rounds left v f s again some_left lt room word wp =
        let n = to_buffer (length left) v in
        let (positive, enough, fits) = put-length v left room word some_left in
        Written-from v (put n left v) left (drop n left) [] f f s s (rest_of rounds left v f s) wp
          refl
          (append_assoc v.buffer (take n left) (drop n left)
            ∙ ap (λ l. v.buffer ++ l) (take-append-drop n left))
          (omega arith) no_more
          (again (drop n left) (put n left v) f s (omega (arith, length-drop n left))
            (omega (arith, length-append v.buffer (take n left), length-take n left)) (omega arith)
            word wp)

    -- The buffer is full: it is flushed, and the data goes on into the empty buffer.
    flush-Written :
        (rounds : ℕ) (left : List ℕ) (w : WritableFile) (f : ZoneFile) (s : Zbd D F)
        (r : WriteOp D F)
        → Writes rounds
        → 0 < length left
        → length left ≤ rounds
        → length w.buffer ≤ w.buffer_sz
        → 0 < w.buffer_sz
        → w.buffer_sz < u32
        → w.wp < u64
        → flush w f s ≡ r
        → Flushed w f s r
        → Written w left f s (then_with r (rest_of rounds left))
    flush-Written rounds left w f s none again some_left lt fit room word wp eq law_r = record {
      out = [];
      handle = w;
      file = f;
      zbd = s;
      appended = no_more;
      rest = left;
      no_byte_lost = refl;
      no_return = eq;
    }
    flush-Written rounds left w f s (some (st, v, f', s')) again some_left lt fit room word wp eq
          (inr (bad, same)) =
        rw (bad, same) ((fit, refl), inl bad)
    flush-Written rounds left w f s (some (st, v, f', s')) again some_left lt fit room word wp eq
          (inl (good, all_out, trace)) =
        rw (good, all_out)
          (Written-from w (flushed w) left left w.buffer f f' s s'
            (rest_of rounds left (flushed w) f' s') wp refl refl refl trace
            (rest_of-Written rounds left (flushed w) f' s' again some_left lt room word
              (omega arith)))

    buffered_write_loop-Written : (rounds : ℕ) → Writes rounds
    unfolding buffered_write_loop
    buffered_write_loop-Written zero left w f s lt fit room word wp = absurd (omega arith)
    buffered_write_loop-Written (suc rounds) [] w f s lt fit room word wp = (
      (fit, refl),
      inr (record {
        out = [];
        appended = no_more;
        no_byte_lost = sym (append-nil w.buffer);
        counted = omega arith;
      }),
    )
    buffered_write_loop-Written (suc rounds) (x ∷ xs) w f s lt fit room word wp =
        let more : (suc (length xs) == 0) ≡ false = ground arith in
        elim (Bool-cases (buffer_left w == 0)) [
          | inl q ↦
              rw (buffered_write_loop, more, q)
                (flush-Written rounds (x ∷ xs) w f s (flush w f s)
                  (buffered_write_loop-Written rounds) (omega arith) (omega arith) fit room word wp
                  refl (law w f s wp))
          | inr q ↦
              rw (buffered_write_loop, more, q)
                (rest_of-Written rounds (x ∷ xs) w f s (buffered_write_loop-Written rounds)
                  (omega arith) (omega arith) (ground arith) word wp)
        ]

    pub buffered_write-Written :
        (slice : List ℕ) (w : WritableFile) (f : ZoneFile) (s : Zbd D F)
        → length slice < u32
        → length w.buffer ≤ w.buffer_sz
        → 0 < w.buffer_sz
        → w.buffer_sz < u32
        → w.wp < u64
        → Written w slice f s (buffered_write flush slice w f s)
    unfolding buffered_write
    buffered_write-Written slice w f s short fit room word wp =
        let all : length slice % u32 ≡ length slice = omega arith in
        rw (buffered_write, all, take_all slice)
          (buffered_write_loop-Written (suc (length slice)) slice w f s (omega arith) fit room word
            wp)
