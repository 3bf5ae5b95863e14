-- ===== src/File/Read/Rounds.antt =====
-- The rounds of `PositionedRead` (fs/io_zenfs.cc) on a device that reads what it is asked for.
use zenfs.Base.{
  ℕ, ◌%◌, zero, suc, ◌+◌, ◌-◌, ◌≤◌, ◌<◌, ◌≡◌, refl, sym, ap, subst, ◌∙◌, inl, inr, Bool, true,
  false, some, List, [], ◌∷◌, ◌++◌, arith, take, drop, length, length-append, ◌==◌, Bool-cases,
}
use mathlib.Core.List.{append-nil, append_assoc}
use zenfs.Base.Words.{u64, add64, sub64}
use zenfs.Status.{ok}
use zenfs.Platform.{Platform}
use zenfs.Device.Io.{read_zbd, int_min}
use zenfs.File.{ZoneExtent}
use zenfs.File.Extents.{total, Located, get_extent-Located}
use zenfs.File.Read.{read_extents, pread_size, aligned_size, next_extent, after_read, Read}
use zenfs.File.Read.Contents.{
  bytes_at, contents, length-bytes_at, window-extent, take-split, cuts, ReadsWhole,
  read_zbd-bytes_at, counted-bytes_at, AllBelow, below-Located, AllStart, start-Located,
  total-append_one,
}
use zenfs.File.Read.Asked.{Asked, pread_size-Asked, aligned_size-Whole}

module _ {D F : Type 0} (p : Platform D F) (m : ℕ → ℕ) (dev : D) (whole : ReadsWhole p m dev)
    (es : List ZoneExtent) (offset r_sz : ℕ) (direct : Bool) (limit : ℕ) (below : AllBelow limit es)
    (inside : offset + r_sz ≤ total es) (small : limit + total es + p.block_size < u64)
    (positive_bs : 0 < p.block_size) (word : r_sz + p.block_size < int_min)
    (starts : direct ≡ true → AllStart p.block_size es) where
  -- The bytes of the file from a position on.
  abbrev piece : ℕ → ℕ → List ℕ
  piece pos n = take n (drop pos (contents m es))

  read_done :
      (fuel r_off extent_end : ℕ) (got : List ℕ)
      → length got ≡ r_sz
      → read_extents p (suc fuel) es offset r_sz direct got r_off extent_end dev
        ≡ some (ok, got, dev)
  unfolding read_extents
  read_done fuel r_off extent_end got all =
      let yes_ : (length got == r_sz) ≡ true = ground (arith, all) in rw (read_extents, yes_) refl

  -- The start of a position's bytes on the device.
  abbrev device_offset : (pos : ℕ) → Located pos es → ℕ
  device_offset pos l = (l.extent).start + (pos - total l.before)

  abbrev extent_end : (pos : ℕ) → Located pos es → ℕ
  extent_end pos l = add64 (l.extent).start (l.extent).length

  -- The loop reads on from a position to the end.
  abbrev ReadsOn : ℕ → Type 0
  ReadsOn k =
      (pos : ℕ) (got : List ℕ) (l : Located pos es)
      → pos ≡ offset + length got
      → length got ≤ r_sz
      → r_sz - length got ≤ k
      → (direct ≡ true → device_offset pos l % p.block_size ≡ 0)
      → read_extents p (suc (suc k)) es offset r_sz direct got (device_offset pos l)
          (extent_end pos l) dev
        ≡ some (ok, got ++ piece pos (r_sz - length got), dev)

  -- The position behind an extent is the start of the extent that it lies in.
  next_start :
      (pos n : ℕ) (l : Located pos es) (l' : Located (pos + n) es)
      → pos + n ≡ total l.before + (l.extent).length
      → device_offset (pos + n) l' ≡ (l'.extent).start
  next_start pos n l l' at_end =
      let reached = l'.reached in
      let inside = l'.inside in
      let joined : (l.before ++ l.extent ∷ []) ++ l.after ≡ l'.before ++ l'.extent ∷ l'.after =
        append_assoc l.before (l.extent ∷ []) l.after ∙ sym l.split ∙ l'.split in
      let sum = total-append_one l.before l.extent in
      elim (cuts (l.before ++ l.extent ∷ []) l.after l'.before l'.extent l'.after joined) [
        | inl le ↦ absurd (omega (arith, sum))
        | inr le ↦ omega (arith, sum)
      ]

  -- After `n` bytes of an extent have been read.
  next_extent-piece :
      (k pos n : ℕ) (got : List ℕ) (l : Located pos es)
      → ReadsOn k
      → pos ≡ offset + length got
      → r_sz - length got ≤ suc k
      → length got < r_sz
      → Asked (r_sz - length got) (device_offset pos l) ((l.extent).start + (l.extent).length) n
      → next_extent p
          (read_extents p (suc (suc k)) es offset r_sz direct)
          es
          offset
          r_sz
          (got ++ bytes_at m (device_offset pos l) n)
          (add64 (device_offset pos l) (length (bytes_at m (device_offset pos l) n)))
          (extent_end pos l)
          dev
        ≡ some (ok, got ++ piece pos (r_sz - length got), dev)
  next_extent-piece k pos n got l again at enough some_left a =
      let off = device_offset pos l in
      let b = bytes_at m off n in
      let len = length-bytes_at m off n in
      let len' = length-append got b in
      let end_le =
        below-Located limit l.before l.extent l.after (subst (AllBelow limit) l.split below) in
      let reached = l.reached in
      let in_extent = a.in_extent in
      let b_piece : piece pos n ≡ b =
        ap (λ x. take n (drop pos (contents m x))) l.split
        ∙ window-extent m l.before l.extent l.after pos n reached (omega arith) in
      elim (Bool-cases (length (got ++ b) == r_sz)) [
        | inl all ↦
            let full : length (got ++ b) ≡ r_sz = ground arith in
            let same : n ≡ r_sz - length got = omega (arith, len, len', full) in
            rw all (
              read_done (suc k) (add64 off (length b)) (extent_end pos l) (got ++ b) full
              ∙ ap (λ x. some (ok, got ++ x, dev)) (sym b_piece ∙ ap (piece pos) same))
        | inr more ↦
            let no_more = a.no_more in
            let short : length (got ++ b) < r_sz = ground (arith, len, len') in
            let at_end : off + n ≡ (l.extent).start + (l.extent).length = (elim (a.ends) [
              | inl q ↦ absurd (omega (arith, len, len', q, short))
              | inr q ↦ q
            ]) in
            let ended : (add64 off (length b) == extent_end pos l) ≡ true =
              (ground (arith, len, at_end)) in
            let next_at : pos + n ≡ offset + length (got ++ b) = omega (arith, len, len', at) in
            let same : add64 offset (length (got ++ b)) ≡ pos + n = omega (arith, next_at) in
            elim (get_extent-Located es (pos + n)) [
              | inl (past, _) ↦ absurd (omega (arith, next_at, short))
              | inr (lt, l') ↦
                  let start : device_offset (pos + n) l' ≡ (l'.extent).start =
                    (next_start pos n l l' (omega arith)) in
                  rw (more, ended, same, l'.found)
                    (subst
                        (λ o.
                          read_extents p (suc (suc k)) es offset r_sz direct (got ++ b) o
                            (extent_end (pos + n) l') dev
                          ≡ some
                              (ok, (got ++ b) ++ piece (pos + n) (r_sz - length (got ++ b)), dev))
                        start
                        (again (pos + n) (got ++ b) l' next_at (omega arith)
                          (omega (arith, len, len'))
                          (λ d.
                            ap (λ o. o % p.block_size) start
                            ∙ start-Located p.block_size l'.before l'.extent l'.after
                                (subst (AllStart p.block_size) l'.split (starts d))))
                      ∙ ap (λ x. some (ok, x, dev))
                          (append_assoc got b (piece (pos + n) (r_sz - length (got ++ b)))
                            ∙ ap (λ x. got ++ x)
                                (ap (λ x. x ++ piece (pos + n) (r_sz - length (got ++ b)))
                                    (sym b_piece)
                                  ∙ take-split n (r_sz - length (got ++ b)) pos (contents m es)
                                  ∙ ap (piece pos) (omega (arith, len, len')))))
            ]
      ]

  read_round :
      (fuel r_off end_ : ℕ) (got : List ℕ)
      → (length got == r_sz) ≡ false
      → let n = pread_size p (sub64 r_sz (length got)) r_off end_ in
        read_extents p (suc fuel) es offset r_sz direct got r_off end_ dev
        ≡ after_read p
            (read_extents p fuel es offset r_sz direct)
            es
            offset
            r_sz
            got
            n
            r_off
            end_
            (read_zbd p (suc fuel) r_off (aligned_size p direct n) direct dev)
  unfolding read_extents
  read_round fuel r_off end_ got q = rw (read_extents, q) refl

  -- What comes of the bytes that were read, without those for alignment.
  after_read-next_extent :
      (again : List ℕ → ℕ → ℕ → D → Read p) (got : List ℕ) (n all r_off end_ : ℕ)
      → 0 < n
      → n ≤ all
      → after_read p again es offset r_sz got n r_off end_ (some (some (bytes_at m r_off all), dev))
        ≡ next_extent p again es offset r_sz
            (got ++ bytes_at m r_off n)
            (add64 r_off (length (bytes_at m r_off n)))
            end_
            dev
  after_read-next_extent again got n all r_off end_ positive le =
      let len = length-bytes_at m r_off all in
      let nonzero : (length (bytes_at m r_off all) == 0) ≡ false = ground (arith, len) in
      rw nonzero (
        ap (λ b. next_extent p again es offset r_sz (got ++ b) (add64 r_off (length b)) end_ dev)
          (counted-bytes_at p m dev whole r_off all n le))

  -- A round that reads something, and the rounds behind it.
  reads_more :
      (j : ℕ)
      → ReadsOn j
      → (pos : ℕ) (got : List ℕ) (l : Located pos es) → pos ≡ offset + length got
      → length got < r_sz
      → r_sz - length got ≤ suc j
      → (direct ≡ true → device_offset pos l % p.block_size ≡ 0)
      → (length got == r_sz) ≡ false
      → read_extents p
          (suc (suc (suc j)))
          es
          offset
          r_sz
          direct
          got
          (device_offset pos l)
          (extent_end pos l)
          dev
        ≡ some (ok, got ++ piece pos (r_sz - length got), dev)
  reads_more j again pos got l at lt enough boundary more =
      let off = device_offset pos l in
      let end_ = extent_end pos l in
      let end_le =
        below-Located limit l.before l.extent l.after (subst (AllBelow limit) l.split below) in
      let reached = l.reached in
      let inside_extent = l.inside in
      let sum : end_ ≡ (l.extent).start + (l.extent).length = omega (arith, end_le) in
      let left : sub64 r_sz (length got) ≡ r_sz - length got = omega arith in
      let n = pread_size p (sub64 r_sz (length got)) off end_ in
      let asked : Asked (r_sz - length got) off ((l.extent).start + (l.extent).length) n =
        subst (λ x. Asked (r_sz - length got) off x n) sum
          (subst (λ x. Asked x off end_ (pread_size p (sub64 r_sz (length got)) off end_)) left
            (pread_size-Asked p (sub64 r_sz (length got)) off end_ (omega (arith, left))
              (omega (arith, sum)) (omega (arith, sum, left, end_le)))) in
      let positive = asked.some_bytes in
      let no_more = asked.no_more in
      let (big, not_more, blocks) = aligned_size-Whole p direct n positive_bs (omega arith) in
      read_round (suc (suc j)) off end_ got more
      ∙ ap
          (after_read p (read_extents p (suc (suc j)) es offset r_sz direct) es offset r_sz got n
            off end_)
          (read_zbd-bytes_at p m dev whole (suc j) off (aligned_size p direct n) direct
            (omega arith) (omega arith) (λ d. (boundary d, blocks d)))
      ∙ after_read-next_extent (read_extents p (suc (suc j)) es offset r_sz direct) got n
          (aligned_size p direct n) off end_ positive big
      ∙ next_extent-piece j pos n got l again at enough lt asked

  -- The loop at its end.
  reads_all :
      (k pos : ℕ) (got : List ℕ) (l : Located pos es)
      → (length got == r_sz) ≡ true
      → read_extents p
          (suc (suc k))
          es
          offset
          r_sz
          direct
          got
          (device_offset pos l)
          (extent_end pos l)
          dev
        ≡ some (ok, got ++ piece pos (r_sz - length got), dev)
  reads_all k pos got l all =
      let full : length got ≡ r_sz = ground arith in
      let none_left : r_sz - length got ≡ 0 = omega (arith, full) in
      read_done (suc k) (device_offset pos l) (extent_end pos l) got full
      ∙ ap (λ x. some (ok, x, dev))
          (sym (append-nil got) ∙ ap (λ j. got ++ piece pos j) (sym none_left))

  pub reads_on : (k : ℕ) → ReadsOn k
  reads_on zero pos got l at le enough boundary = reads_all zero pos got l (ground arith)
  reads_on (suc j) pos got l at le enough boundary = elim (Bool-cases (length got == r_sz)) [
    | inl all ↦ reads_all (suc j) pos got l all
    | inr more ↦ reads_more j (reads_on j) pos got l at (ground arith) enough boundary more
  ]
