-- ===== src/File/Format/RoundTrip.antt =====
-- `EncodeTo` and `DecodeFrom` of `ZoneFile` (fs/io_zenfs.cc) together: encoding, then decoding.
use zenfs.Base.{
  ℕ, zero, suc, ◌+◌, ◌-◌, ◌≤◌, ◌<◌, ◌≡◌, refl, sym, ap, ◌∙◌, inl, inr, Bool, true, false, some,
  List, [], ◌∷◌, ◌++◌, arith, drop, length, length-append, get_elem?, set, ◌==◌, if◌then◌else◌,
  Bool-cases, Option-cases,
}
use mathlib.Core.List.{append-nil, append_assoc}
use zenfs.Base.Words.{u32, u64, add64}
use zenfs.Status.{ok}
use zenfs.Platform.{Platform}
use zenfs.Coding.{Coding, CodingLaws}
use zenfs.Zone.{Zone}
use zenfs.Device.State.{Zbd}
use zenfs.Device.Space.{get_io_zone, io_zone_from}
use zenfs.File.{ZoneExtent, ZoneFile, FileName, add_used, metadata_synced}
use zenfs.File.Format.{
  encode_extent, encode_extents, encode_links, encode_file, encode_tail, decode_extent, decode_tag,
  decode_tags, decode_file,
}

-- An extent whose numbers are words and whose zone is the one at its start.
pub record IsPlaced {D F : Type 0} (p : Platform D F) (s : Zbd D F) (e : ZoneExtent) : Type 0 where
  pub start_lt : e.start < u64
  pub length_lt : e.length < u64
  pub zone_at : get_io_zone p e.start s ≡ some e.zone

pub record IsNamed (n : FileName) : Type 0 where
  pub nonempty : 0 < length n
  pub fits : length n < u32

abbrev pub All : {A : Type 0} → (A → Type 0) → List A → Type 0
All P [] = Unit {0}
All P (x ∷ xs) = P x × All P xs

-- One round of fuel for each item, and `k` more.
abbrev rounds : {A : Type 0} → List A → ℕ → ℕ
rounds [] k = k
rounds (x ∷ xs) k = suc (rounds xs k)

rounds_eq : {A : Type 0} (xs : List A) (k : ℕ) → rounds xs k ≡ length xs + k
rounds_eq [] k = omega arith
rounds_eq (x ∷ xs) k = omega (arith, rounds_eq xs k)

-- The extents count as live data in their zones.
abbrev pub attach : {D F : Type 0} → List ZoneExtent → Zbd D F → Zbd D F
attach [] s = s
attach (e ∷ es) s = attach es (add_used e.zone e.length s)

-- A file as it is read back into a new object: what is not encoded has its initial value.
abbrev pub restored : ZoneFile → List ZoneExtent → ZoneFile → ZoneFile
restored f es blank = record blank {
  file_id = f.file_id;
  file_size = f.file_size;
  lifetime = f.lifetime;
  extents = blank.extents ++ es;
  m_time = f.m_time;
  extent_start = f.extent_start;
  is_sparse = if f.is_sparse then true else blank.is_sparse;
  linkfiles = blank.linkfiles ++ f.linkfiles;
}

io_zone_from-set :
    (size offset k i u : ℕ) (z : Zone) (zs : List Zone)
    → get_elem? zs i ≡ some z
    → io_zone_from size offset k (set zs i (record z { used_capacity = u }))
      ≡ io_zone_from size offset k zs
unfolding io_zone_from
io_zone_from-set size offset k i u z [] e = refl
io_zone_from-set size offset k zero u z (x ∷ zs) e = ground arith
io_zone_from-set size offset k (suc i) u z (x ∷ zs) e =
    rw (io_zone_from-set size offset (suc k) i u z zs e)

module _ {D F : Type 0} (p : Platform D F) where
  get_io_zone-add_used :
      (offset i n : ℕ) (s : Zbd D F)
      → get_io_zone p offset (add_used i n s) ≡ get_io_zone p offset s
  unfolding get_io_zone add_used
  get_io_zone-add_used offset i n s = elim (Option-cases (get_elem? s.io_zones i)) [
    | inl e ↦ rw e refl
    | inr (z, e) ↦
        rw e (io_zone_from-set p.zone_size offset 0 i (add64 z.used_capacity n) z s.io_zones e)
  ]

  add_used-IsPlaced :
      (i n : ℕ) (s : Zbd D F) (es : List ZoneExtent)
      → All (IsPlaced p s) es
      → All (IsPlaced p (add_used i n s)) es
  add_used-IsPlaced i n s [] h = tt
  add_used-IsPlaced i n s (e ∷ es) (h, hs) = (
    record {
      start_lt = h.start_lt;
      length_lt = h.length_lt;
      zone_at = get_io_zone-add_used e.start i n s ∙ h.zone_at;
    },
    add_used-IsPlaced i n s es hs,
  )

module _ {D F : Type 0} (p : Platform D F) (c : Coding) (l : CodingLaws c) where
  decode-encode_extent :
      (e : ZoneExtent)
      → e.start < u64
      → e.length < u64
      → decode_extent c (encode_extent c e) ≡ some (e.start, e.length)
  unfolding decode_extent encode_extent
  decode-encode_extent e hs hl =
      let size : length (c.put_fixed64 e.start ++ c.put_fixed64 e.length) ≡ 16 = omega (
        arith,
        length-append (c.put_fixed64 e.start) (c.put_fixed64 e.length),
        l.length-put_fixed64 e.start,
        l.length-put_fixed64 e.length,
      ) in
      let second =
        ap c.get_fixed64 (sym (append-nil (c.put_fixed64 e.length)))
        ∙ l.get-put_fixed64 e.length [] hl in
      rw (size, l.get-put_fixed64 e.start (c.put_fixed64 e.length) hs, second) refl

  length-encode_extent : (e : ZoneExtent) → length (encode_extent c e) ≡ 16
  unfolding encode_extent
  length-encode_extent e = omega (
    arith,
    length-append (c.put_fixed64 e.start) (c.put_fixed64 e.length),
    l.length-put_fixed64 e.start,
    l.length-put_fixed64 e.length,
  )

  decode_links :
      (k : ℕ) (ns : List FileName) (f : ZoneFile) (s : Zbd D F)
      → All IsNamed ns
      → decode_tags c p (rounds ns (suc k)) f (encode_links c ns) s
        ≡ some (ok, metadata_synced (record f { linkfiles = f.linkfiles ++ ns }), s)
  unfolding decode_tags encode_links decode_tag
  decode_links k [] f s h = rw (l.get_fixed32_nil, append-nil f.linkfiles) refl
  decode_links k (n ∷ ns) f s (h, hs) =
      let named : (length n == 0) ≡ false = (let b = h.nonempty in ground arith) in
      let f' = record f { linkfiles = f.linkfiles ++ n ∷ [] } in
      rw
        (
          l.get-put_fixed32 9 (c.put_length_prefixed_slice n ++ encode_links c ns) (omega arith),
          l.get-put_slice n (encode_links c ns) h.fits,
          named,
        )
        (rw (← append_assoc f.linkfiles (n ∷ []) ns) (decode_links k ns f' s hs))

  decode_extents :
      (k : ℕ) (es : List ZoneExtent) (rest : List ℕ) (f : ZoneFile) (s : Zbd D F)
      → All (IsPlaced p s) es
      → decode_tags c p (rounds es k) f (encode_extents c es ++ rest) s
        ≡ decode_tags c p k (record f { extents = f.extents ++ es }) rest (attach es s)
  unfolding decode_tags encode_extents decode_tag
  decode_extents k [] rest f s h = rw (append-nil f.extents) refl
  decode_extents k (e ∷ es) rest f s (h, hs) =
      let slice = encode_extent c e in
      let after = encode_extents c es ++ rest in
      let short : length slice < u32 = (let b = length-encode_extent e in omega arith) in
      rw
        (
          append_assoc (c.put_fixed32 5) (c.put_length_prefixed_slice slice ++ encode_extents c es)
              rest,
          append_assoc (c.put_length_prefixed_slice slice) (encode_extents c es) rest,
          l.get-put_fixed32 5 (c.put_length_prefixed_slice slice ++ after) (omega arith),
          l.get-put_slice slice after short,
          decode-encode_extent e h.start_lt h.length_lt,
          h.zone_at,
          l.get-put_slice slice after short,
        )
        (rw (← append_assoc f.extents (e ∷ []) es) (
          decode_extents k es rest (record f { extents = f.extents ++ e ∷ [] })
            (add_used e.zone e.length s) (add_used-IsPlaced p e.zone e.length s es hs)))

  -- The fuel that takes the decoder through the members of a file.
  abbrev tags_of : ZoneFile → List ZoneExtent → ℕ → ℕ
  tags_of f es k = suc (
      suc (
        rounds es (
          suc (
            suc (
              if f.is_sparse
              then suc (rounds f.linkfiles (suc k))
              else rounds f.linkfiles (suc k))))))

  decode_tail :
      (k : ℕ) (b : Bool) (f blank : ZoneFile) (s : Zbd D F)
      → f.is_sparse ≡ b
      → f.m_time < u64
      → f.extent_start < u64
      → All IsNamed f.linkfiles
      → decode_tags c p
          (suc (suc (if b then suc (rounds f.linkfiles (suc k)) else rounds f.linkfiles (suc k))))
          blank
          (encode_tail c f)
          s
        ≡ some (
          ok,
          metadata_synced (record blank {
            m_time = f.m_time;
            extent_start = f.extent_start;
            is_sparse = if b then true else blank.is_sparse;
            linkfiles = blank.linkfiles ++ f.linkfiles;
          }),
          s,
        )
  unfolding decode_tags decode_tag
  decode_tail k true f blank s e hm ha hn =
      rw
        (
          e,
          decode_tags,
          l.get-put_fixed32 6 _ (omega arith),
          l.get-put_fixed64 f.m_time _ hm,
          l.get-put_fixed32 7 _ (omega arith),
          l.get-put_fixed64 f.extent_start _ ha,
          l.get-put_fixed32 8 _ (omega arith),
        )
        (decode_links k f.linkfiles
          (record blank { m_time = f.m_time; extent_start = f.extent_start; is_sparse = true }) s
          hn)
  decode_tail k false f blank s e hm ha hn =
      rw
        (
          e,
          decode_tags,
          l.get-put_fixed32 6 _ (omega arith),
          l.get-put_fixed64 f.m_time _ hm,
          l.get-put_fixed32 7 _ (omega arith),
          l.get-put_fixed64 f.extent_start _ ha,
        )
        (decode_links k f.linkfiles
          (record blank { m_time = f.m_time; extent_start = f.extent_start }) s hn)

  decode_members :
      (start k : ℕ) (f blank : ZoneFile) (s : Zbd D F)
      → f.file_id < u64
      → f.file_size < u64
      → f.lifetime < u32
      → f.m_time < u64
      → f.extent_start < u64
      → All (IsPlaced p s) (drop start f.extents)
      → All IsNamed f.linkfiles
      → decode_file c p (tags_of f (drop start f.extents) k) blank (encode_file c f start) s
        ≡ some (
          ok,
          metadata_synced (restored f (drop start f.extents) blank),
          attach (drop start f.extents) s,
        )
  unfolding decode_file encode_file decode_tags decode_tag
  decode_members start k f blank s hi hs hl hm ha he hn =
      let es = drop start f.extents in
      let head = record blank {
        file_id = f.file_id;
        file_size = f.file_size;
        lifetime = f.lifetime;
      } in
      rw
        (
          decode_file,
          l.get-put_fixed32 1 _ (omega arith),
          l.get-put_fixed64 f.file_id _ hi,
          decode_tags,
          l.get-put_fixed32 3 _ (omega arith),
          l.get-put_fixed64 f.file_size _ hs,
          l.get-put_fixed32 4 _ (omega arith),
          l.get-put_fixed32 f.lifetime _ hl,
        )
        (decode_extents _ es (encode_tail c f) head s he
          ∙ decode_tail k f.is_sparse f (record head { extents = blank.extents ++ es })
              (attach es s) refl hm ha hn)

  tags_of-le :
      (f : ZoneFile) (es : List ZoneExtent) (fuel : ℕ)
      → length es + length f.linkfiles + 6 ≤ fuel
      → (k : ℕ) × (tags_of f es k ≡ fuel)
  tags_of-le f es fuel h = elim (Bool-cases f.is_sparse) [
    | inl e ↦ (
      fuel - (length es + length f.linkfiles + 6),
      rw e (
          omega (
            arith,
            rounds_eq es (
                suc (
                  suc (
                    suc (rounds f.linkfiles (suc (fuel - (length es + length f.linkfiles + 6))))))),
            rounds_eq f.linkfiles (suc (fuel - (length es + length f.linkfiles + 6))),
          )),
    )
    | inr e ↦ (
      fuel - (length es + length f.linkfiles + 5),
      rw e (
          omega (
            arith,
            rounds_eq es (
                suc (suc (rounds f.linkfiles (suc (fuel - (length es + length f.linkfiles + 5)))))),
            rounds_eq f.linkfiles (suc (fuel - (length es + length f.linkfiles + 5))),
          )),
    )
  ]

  -- What `EncodeTo` writes of a file, from any of its extents on, `DecodeFrom` reads back. The decoder
  -- returns ok, the file that it was given has got the id, the size, the lifetime, those extents, the
  -- modification time, the start of the active extent, the sparse mark and the names of the encoded
  -- file, all its extents are marked as synced, and each extent counts as live data of its zone. The
  -- numbers are words, no name is empty, and each extent starts in the zone that it names; the
  -- decoder goes round once for each extent and name, and at most six times more.
  pub decode-encode_file :
      (start fuel : ℕ) (f blank : ZoneFile) (s : Zbd D F)
      → f.file_id < u64
      → f.file_size < u64
      → f.lifetime < u32
      → f.m_time < u64
      → f.extent_start < u64
      → All (IsPlaced p s) (drop start f.extents)
      → All IsNamed f.linkfiles
      → length (drop start f.extents) + length f.linkfiles + 6 ≤ fuel
      → decode_file c p fuel blank (encode_file c f start) s
        ≡ some (
          ok,
          metadata_synced (restored f (drop start f.extents) blank),
          attach (drop start f.extents) s,
        )
  decode-encode_file start fuel f blank s hi hs hl hm ha he hn h =
      let (k, e) = tags_of-le f (drop start f.extents) fuel h in
      rw (← e) (decode_members start k f blank s hi hs hl hm ha he hn)
