-- ===== src/File/Recover/Segments.antt =====
-- The extents that `Recover` adds to a file, and the segments of a sparse file (fs/io_zenfs.cc).
use zenfs.Base.{
  ℕ, zero, suc, ◌-◌, ◌≤◌, ◌<◌, ◌≡◌, refl, sym, subst, ◌∙◌, ◌⊎◌, inl, inr, false, none, some, List,
  [], ◌∷◌, ◌++◌, arith, length, get_elem?, leb, if◌then◌else◌, ◌==◌, Bool-cases, Option-cases,
}
use mathlib.Core.List.{append-nil, append_assoc}
use zenfs.Base.Words.{add64, mul64}
use zenfs.Status.{is_ok}
use zenfs.Platform.{Platform}
use zenfs.Zone.{Zone}
use zenfs.Coding.{Coding}
use zenfs.Device.State.{Zbd}
use zenfs.Device.Io.{read_zbd}
use zenfs.File.{
  ZoneExtent, ZoneFile, sparse_header_size, has_active_extent, extents_length, add_used, no_extent,
}
use zenfs.File.Write.{Op}
use zenfs.File.Recover.{add_extent, segment_blocks, header, recover_sparse_extents}

module _ {D F : Type 0} where
  -- With `Q` of the file and the device where the status is good, `B` where it is not, and `N` if the
  -- call does not return.
  abbrev pub Ends : (ZoneFile → Zbd D F → Type 0) → Type 0 → Type 0 → Op D F → Type 0
  Ends Q B N none = N
  Ends Q B N (some (st, f', s')) = ((is_ok st ≡ false) × B) ⊎ Q f' s'

  -- All extents are counted as live data of their zones.
  abbrev pub counted_live : List ZoneExtent → Zbd D F → Zbd D F
  counted_live [] s = s
  counted_live (x ∷ xs) s = counted_live xs (add_used x.zone x.length s)

  add_used-zones :
      (i n : ℕ) (s t : Zbd D F)
      → s.io_zones ≡ t.io_zones
      → (add_used i n s).io_zones ≡ (add_used i n t).io_zones
  unfolding add_used
  add_used-zones i n s t e = elim (Option-cases (get_elem? t.io_zones i)) [
    | inl q ↦ rw (add_used, e, q) refl
    | inr (z, q) ↦ rw (add_used, e, q) refl
  ]

  add_used-dev : (i n : ℕ) (s : Zbd D F) → (add_used i n s).dev ≡ s.dev
  unfolding add_used
  add_used-dev i n s = elim (Option-cases (get_elem? s.io_zones i)) [
    | inl q ↦ rw (add_used, q) refl
    | inr (z, q) ↦ rw (add_used, q) refl
  ]

  counted_live-zones :
      (xs : List ZoneExtent) (s t : Zbd D F)
      → s.io_zones ≡ t.io_zones
      → (counted_live xs s).io_zones ≡ (counted_live xs t).io_zones
  counted_live-zones [] s t e = e
  counted_live-zones (x ∷ xs) s t e =
      counted_live-zones xs (add_used x.zone x.length s) (add_used x.zone x.length t)
        (add_used-zones x.zone x.length s t e)

module _ {D F : Type 0} (c : Coding) (p : Platform D F) (i : ℕ) where
  -- The block at an offset says how long the segment behind its header is.
  pub record Says (dev dev' : D) (offset len : ℕ) : Type 0 where
    pub fuel : ℕ
    pub block : List ℕ
    pub was_read : read_zbd p fuel offset p.block_size false dev ≡ some (some block, dev')
    pub whole : length block ≡ p.block_size
    pub says : len ≡ header c p block

  -- The extents are the segments, one behind the other, from an offset to the end.
  abbrev pub Tiles : D → ℕ → ℕ → List ZoneExtent → Type 0
  Tiles dev offset end_ [] = end_ ≤ offset
  Tiles dev offset end_ (x ∷ xs) =
      (offset < end_)
      × (x.zone ≡ i)
      × (x.start ≡ add64 offset sparse_header_size)
      × (0 < x.length)
      × ((dev' : D) × Says dev dev' offset x.length
          × Tiles dev' (add64 offset (mul64 (segment_blocks p.block_size x.length) p.block_size))
              end_ xs)

  -- Segments have been added to the file, and counted.
  pub record Grows (offset end_ : ℕ) (f : ZoneFile) (s : Zbd D F) (f' : ZoneFile) (s' : Zbd D F)
      : Type 0 where
    pub added : List ZoneExtent
    pub extents : f'.extents ≡ f.extents ++ added
    pub live : s'.io_zones ≡ (counted_live added s).io_zones
    pub tiles : Tiles s.dev offset end_ added

  -- One extent up to the write pointer, or the segments of a sparse file.
  abbrev pub Covers : Zone → ZoneFile → Zbd D F → List ZoneExtent → Type 0
  Covers z f s added =
      if f.is_sparse
      then Tiles s.dev f.extent_start z.wp added
      else added ≡ record { start = f.extent_start; length = z.wp - f.extent_start; zone = i } ∷ []

  pub record IsRecovered (z : Zone) (f : ZoneFile) (s : Zbd D F) (f' : ZoneFile) (s' : Zbd D F)
      : Type 0 where
    pub added : List ZoneExtent
    pub extents : f'.extents ≡ f.extents ++ added
    pub live : s'.io_zones ≡ (counted_live added s).io_zones
    pub covers : Covers z f s added
    pub inactive : has_active_extent f' ≡ false
    pub size : f'.file_size ≡ extents_length f'.extents

  -- Nothing was behind the start of the active extent, or it has been recovered.
  abbrev pub Recovered : Zone → ZoneFile → Zbd D F → ZoneFile → Zbd D F → Type 0
  Recovered z f s f' s' =
      ((z.wp ≡ f.extent_start) × (f' ≡ record f { extent_start = no_extent }) × (s' ≡ s))
      ⊎ IsRecovered z f s f' s'

  Grows-step :
      (offset end_ len : ℕ) (f g : ZoneFile) (s s' : Zbd D F) (dev : D)
      → offset < end_
      → 0 < len
      → Says s.dev dev offset len
      → Grows
          (add64 offset (mul64 (segment_blocks p.block_size len) p.block_size))
          end_
          (add_extent (add64 offset sparse_header_size) len i f)
          (add_used i len (record s { dev = dev }))
          g
          s'
      → Grows offset end_ f s g s'
  Grows-step offset end_ len f g s s' dev before positive said l =
      let x : ZoneExtent = record {
        start = add64 offset sparse_header_size;
        length = len;
        zone = i;
      } in
      record {
        added = x ∷ l.added;
        extents = l.extents ∙ append_assoc f.extents (x ∷ []) l.added;
        live =
            l.live
            ∙ counted_live-zones l.added _ (add_used i len s)
                (add_used-zones i len (record s { dev = dev }) s refl);
        tiles = (
          before,
          refl,
          refl,
          positive,
          (
            dev,
            said,
            subst
                (λ d.
                  Tiles d (add64 offset (mul64 (segment_blocks p.block_size len) p.block_size)) end_
                    l.added)
                (add_used-dev i len (record s { dev = dev })) l.tiles,
          ),
        );
      }

  Ends-step :
      (Q Q' : ZoneFile → Zbd D F → Type 0) (r : Op D F)
      → ((f : ZoneFile) (s : Zbd D F) → Q f s → Q' f s)
      → Ends Q Unit Unit r
      → Ends Q' Unit Unit r
  Ends-step Q Q' none h e = tt
  Ends-step Q Q' (some (st, f, s)) h (inl bad) = inl bad
  Ends-step Q Q' (some (st, f, s)) h (inr q) = inr (h f s q)

  pub recover_sparse_extents-Grows :
      (fuel offset end_ : ℕ) (f : ZoneFile) (s : Zbd D F)
      → Ends (Grows offset end_ f s) Unit Unit (recover_sparse_extents c p fuel offset end_ i f s)
  unfolding recover_sparse_extents
  recover_sparse_extents-Grows zero offset end_ f s = tt
  recover_sparse_extents-Grows (suc fuel) offset end_ f s = elim (Bool-cases (leb end_ offset)) [
    | inl q ↦
        rw (recover_sparse_extents, q)
          (inr (record {
            added = [];
            extents = sym (append-nil f.extents);
            live = refl;
            tiles = ground arith;
          }))
    | inr q ↦ elim (Option-cases (read_zbd p (suc fuel) offset p.block_size false s.dev)) [
      | inl n ↦ rw (recover_sparse_extents, q, n) tt
      | inr ((none, dev'), n) ↦ rw (recover_sparse_extents, q, n) (inl (refl, tt))
      | inr ((some buffer, dev'), n) ↦ elim (Bool-cases (length buffer == p.block_size)) [
        | inr short ↦ rw (recover_sparse_extents, q, n, short) (inl (refl, tt))
        | inl full ↦ elim (Bool-cases (header c p buffer == 0)) [
          | inl no_segment ↦ rw (recover_sparse_extents, q, n, full, no_segment) (inl (refl, tt))
          | inr segment ↦
              let len = header c p buffer in
              let f' = add_extent (add64 offset sparse_header_size) len i f in
              let next = add64 offset (mul64 (segment_blocks p.block_size len) p.block_size) in
              let s' = add_used i len (record s { dev = dev' }) in
              let said : Says s.dev dev' offset len = record {
                fuel = suc fuel;
                block = buffer;
                was_read = n;
                whole = ground arith;
                says = refl;
              } in
              rw (recover_sparse_extents, q, n, full, segment)
                (Ends-step (Grows next end_ f' s') (Grows offset end_ f s)
                  (recover_sparse_extents c p fuel next end_ i f' s')
                  (λ g t.
                    Grows-step offset end_ len f g s t dev' (ground arith) (ground arith) said)
                  (recover_sparse_extents-Grows fuel next end_ f' s'))
        ]
      ]
    ]
  ]
