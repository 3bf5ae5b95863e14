-- ===== src/File/Extents.antt =====
-- The live data that a file's extents count for in their zones, and the extent of a file offset
-- (fs/io_zenfs.cc).
use zenfs.Base.{
  ℕ, ◌+◌, ◌-◌, ◌≤◌, ◌<◌, ◌≡◌, ◌≢◌, refl, sym, ap, ◌∙◌, ◌⊎◌, inl, inr, Bool, true, false, none, some,
  List, [], ◌∷◌, ◌++◌, arith, get_elem?, get_elem?-set_self, get_elem?-set_ne, ltb, ◌==◌,
  if◌then◌else◌, Bool-cases, Option-cases,
}
use mathlib.Core.List.{append-nil, append_assoc}
use zenfs.Base.Words.{u64, add64, sub64}
use zenfs.Status.{ok, corruption}
use zenfs.Zone.{Zone}
use zenfs.Device.State.{Zbd}
use zenfs.File.{
  ZoneExtent, ZoneFile, get_extent, add_used, sub_used, release_extents, clear_extents,
  copy_extents, merge_update, metadata_synced,
}

-- The bytes of the extents that lie in zone `j`, and of all extents.
abbrev pub bytes_in : ℕ → List ZoneExtent → ℕ
bytes_in j [] = 0
bytes_in j (e ∷ es) = (if e.zone == j then e.length else 0) + bytes_in j es

abbrev pub total : List ZoneExtent → ℕ
total [] = 0
total (e ∷ es) = e.length + total es

abbrev pub with_live : ℕ → Zone → Zone
with_live n z = record z { used_capacity = n }

minus_zero : (z : Zone) → some z ≡ some (with_live (z.used_capacity - 0) z)
minus_zero z = ap (λ u. some (with_live u z)) (omega arith)

plus_zero : (z : Zone) → some z ≡ some (with_live (z.used_capacity + 0) z)
plus_zero z = ap (λ u. some (with_live u z)) (omega arith)

-- One zone's live data, after it changed in zone `i`.
module _ {D F : Type 0} (s : Zbd D F) (j : ℕ) (z : Zone)
    (at : get_elem? s.io_zones j ≡ some z) where
  sub_used_at :
      (i n : ℕ)
      → z.used_capacity < u64
      → (if i == j then n else 0) ≤ z.used_capacity
      → get_elem? (sub_used i n s).io_zones j
        ≡ some (with_live (z.used_capacity - (if i == j then n else 0)) z)
  unfolding sub_used
  sub_used_at i n lt le = elim (Bool-cases (i == j)) [
    | inl e ↦
        let here : i ≡ j = ground arith in
        let small : n ≤ z.used_capacity = ground arith in
        let exact : sub64 z.used_capacity n ≡ z.used_capacity - n = omega arith in
        rw (e, here, at, exact)
          (get_elem?-set_self s.io_zones j z (with_live (z.used_capacity - n) z) at)
    | inr e ↦ elim (Option-cases (get_elem? s.io_zones i)) [
      | inl f ↦ rw (e, f) (at ∙ minus_zero z)
      | inr (x, f) ↦
          rw (e, f)
            (get_elem?-set_ne s.io_zones i j (with_live (sub64 x.used_capacity n) x)
                (λ q. ground arith)
              ∙ at
              ∙ minus_zero z)
    ]
  ]

  add_used_at :
      (i n : ℕ)
      → z.used_capacity + (if i == j then n else 0) < u64
      → get_elem? (add_used i n s).io_zones j
        ≡ some (with_live (z.used_capacity + (if i == j then n else 0)) z)
  unfolding add_used
  add_used_at i n lt = elim (Bool-cases (i == j)) [
    | inl e ↦
        let here : i ≡ j = ground arith in
        let small : z.used_capacity + n < u64 = ground arith in
        let exact : add64 z.used_capacity n ≡ z.used_capacity + n = omega arith in
        rw (e, here, at, exact)
          (get_elem?-set_self s.io_zones j z (with_live (z.used_capacity + n) z) at)
    | inr e ↦ elim (Option-cases (get_elem? s.io_zones i)) [
      | inl f ↦ rw (e, f) (at ∙ plus_zero z)
      | inr (x, f) ↦
          rw (e, f)
            (get_elem?-set_ne s.io_zones i j (with_live (add64 x.used_capacity n) x)
                (λ q. ground arith)
              ∙ at
              ∙ plus_zero z)
    ]
  ]

module _ {D F : Type 0} (j : ℕ) where
  release_extents_at :
      (es : List ZoneExtent) (s : Zbd D F) (z : Zone)
      → get_elem? s.io_zones j ≡ some z
      → z.used_capacity < u64
      → bytes_in j es ≤ z.used_capacity
      → get_elem? (release_extents es s).io_zones j
        ≡ some (with_live (z.used_capacity - bytes_in j es) z)
  unfolding release_extents
  release_extents_at [] s z at lt le = at ∙ minus_zero z
  release_extents_at (e ∷ es) s z at lt le =
      let n = if e.zone == j then e.length else 0 in
      let z' = with_live (z.used_capacity - n) z in
      release_extents_at es (sub_used e.zone e.length s) z'
        (sub_used_at s j z at e.zone e.length lt (omega arith)) (omega arith) (omega arith)
      ∙ ap (λ u. some (with_live u z)) (omega arith)

  copy_extents_at :
      (es : List ZoneExtent) (f : ZoneFile) (s : Zbd D F) (z : Zone)
      → get_elem? s.io_zones j ≡ some z
      → z.used_capacity + bytes_in j es < u64
      → get_elem? (copy_extents es f s).1.io_zones j
        ≡ some (with_live (z.used_capacity + bytes_in j es) z)
  unfolding copy_extents
  copy_extents_at [] f s z at lt = at ∙ plus_zero z
  copy_extents_at (e ∷ es) f s z at lt =
      let n = if e.zone == j then e.length else 0 in
      let z' = with_live (z.used_capacity + n) z in
      copy_extents_at es (record f { extents = f.extents ++ e ∷ [] }) (add_used e.zone e.length s)
        z' (add_used_at s j z at e.zone e.length (omega arith)) (omega arith)
      ∙ ap (λ u. some (with_live u z)) (omega arith)

copy_extents_file :
    {D F : Type 0} (es : List ZoneExtent) (f : ZoneFile) (s : Zbd D F)
    → (copy_extents es f s).0.extents ≡ f.extents ++ es
unfolding copy_extents
copy_extents_file [] f s = sym (append-nil f.extents)
copy_extents_file (e ∷ es) f s =
    copy_extents_file es (record f { extents = f.extents ++ e ∷ [] }) (add_used e.zone e.length s)
    ∙ append_assoc f.extents (e ∷ []) es

module _ {D F : Type 0} (f : ZoneFile) (s : Zbd D F) (j : ℕ) (z : Zone)
    (at : get_elem? s.io_zones j ≡ some z) (word : z.used_capacity < u64) where
  -- `ClearExtents` takes from a zone's live data exactly the bytes that the file has there, and
  -- changes nothing else of the zone; the file is left without extents. The zone counts at least
  -- those bytes, in a 64-bit counter.
  pub clear_extents_at :
      bytes_in j f.extents ≤ z.used_capacity
      → ((clear_extents f s).0.extents ≡ [])
        × (get_elem? (clear_extents f s).1.io_zones j
            ≡ some (with_live (z.used_capacity - bytes_in j f.extents) z))
  unfolding clear_extents
  clear_extents_at le = (refl, release_extents_at j f.extents s z at word le)

  -- `MergeUpdate` refuses an update for another file, and then changes nothing. Else it keeps the
  -- live data of each zone in step with the extents that the file holds: with `replace` the bytes of
  -- the old extents go and those of the update come, and without it those of the update come on top.
  pub merge_update_at :
      (update : ZoneFile) (replace : Bool)
      → bytes_in j f.extents ≤ z.used_capacity
      → z.used_capacity + bytes_in j update.extents < u64
      → let (st, f', s') = merge_update update replace f s in
        ((st ≡ corruption) × (f.file_id ≢ update.file_id) × (f' ≡ f) × (s' ≡ s))
        ⊎ ((st ≡ ok)
            × (f.file_id ≡ update.file_id)
            × (f'.extents ≡ (if replace then update.extents else f.extents ++ update.extents))
            × (get_elem? s'.io_zones j
                ≡ some (
                    with_live
                      ((if replace then z.used_capacity - bytes_in j f.extents else z.used_capacity)
                        + bytes_in j update.extents)
                      z)))
  unfolding merge_update clear_extents metadata_synced
  merge_update_at update true le lt = elim (Bool-cases (f.file_id == update.file_id)) [
    | inr e ↦ rw e (inl (refl, (λ q. ground arith), refl, refl))
    | inl e ↦ rw e (
        inr (
          refl,
          ground arith,
          copy_extents_file update.extents _ _,
          copy_extents_at j update.extents _ (release_extents f.extents s)
              (with_live (z.used_capacity - bytes_in j f.extents) z)
              (release_extents_at j f.extents s z at word le) (omega arith),
        ))
  ]
  merge_update_at update false le lt = elim (Bool-cases (f.file_id == update.file_id)) [
    | inr e ↦ rw e (inl (refl, (λ q. ground arith), refl, refl))
    | inl e ↦ rw e (
        inr (
          refl,
          ground arith,
          copy_extents_file update.extents _ _,
          copy_extents_at j update.extents _ s z at lt,
        ))
  ]

-- The extent at which a position in the file lies, with the extents before and after it.
pub record Located (file_offset : ℕ) (es : List ZoneExtent) : Type 0 where
  pub before : List ZoneExtent
  pub extent : ZoneExtent
  pub after : List ZoneExtent
  pub split : es ≡ before ++ extent ∷ after
  pub reached : total before ≤ file_offset
  pub inside : file_offset < total before + extent.length
  pub found :
      get_extent file_offset es ≡ some (extent, add64 extent.start (file_offset - total before))

-- `GetExtent` finds the extent that holds a position in the file, with the offset of that position on
-- the device; it finds none exactly for the positions at or behind the end of the last extent.
pub get_extent-Located :
    (es : List ZoneExtent) (file_offset : ℕ)
    → ((total es ≤ file_offset) × (get_extent file_offset es ≡ none))
      ⊎ ((file_offset < total es) × Located file_offset es)
unfolding get_extent
get_extent-Located [] o = inl (omega arith, refl)
get_extent-Located (e ∷ es) o = elim (Bool-cases (ltb o e.length)) [
  | inl lt ↦ inr (
    ground arith,
    record {
      before = [];
      extent = e;
      after = es;
      split = refl;
      reached = omega arith;
      inside = ground arith;
      found = rw lt (ap (λ k. some (e, add64 e.start k)) (omega arith));
    },
  )
  | inr ge ↦
      let past : e.length ≤ o = ground arith in
      elim (get_extent-Located es (o - e.length)) [
        | inl (le, none_found) ↦ inl (omega arith, rw ge none_found)
        | inr (lt, l) ↦ inr (
          omega arith,
          record {
            before = e ∷ l.before;
            extent = l.extent;
            after = l.after;
            split = ap (◌∷◌ e) l.split;
            reached = (let r = l.reached in omega arith);
            inside = (let i = l.inside in omega arith);
            found = rw ge (
                l.found
                ∙ ap (λ k. some (l.extent, add64 (l.extent).start k))
                    (let r = l.reached in omega arith));
          },
        )
      ]
]
