-- ===== src/Fs/Log/Zones.antt =====
-- The metadata zones of the log: `Append` to one returns, on a device whose writes make progress, and
-- `AllocateMetaZone` (fs/zbd_zenfs.cc) finds one that is there.
use zenfs.Base.{
  ℕ, zero, suc, ◌<◌, ◌≡◌, refl, ap, ◌∙◌, inl, inr, not, Option, none, some, List, arith, drop,
  length, length-drop, get_elem?, get_elem?-lt, length-set, ltb, ◌==◌, ◌||◌, Bool-cases,
  Option-cases,
}
use zenfs.Base.Words.{add64, sub64}
use zenfs.Status.{Status, corruption, is_ok}
use zenfs.Platform.{Platform}
use zenfs.Zone.{is_used, is_empty, reset_zone, Zone, Appended, append_loop, append}
use zenfs.Zone.Valid.{WritesSome}
use zenfs.Device.State.{Zbd, meta, append_at, acquire_at, check_release_at, reset_at, put_zone}
use zenfs.Device.Alloc.{allocate_meta_zone_from}
use zenfs.Device.Alloc.Frame.{note_reset_frame}

module _ {D F : Type 0} (p : Platform D F) (w : WritesSome p.backend) where
  append_loop-some :
      (fuel : ℕ) (buf : List ℕ) (z : Zone) (dev : D) (written : ℕ)
      → length buf < fuel
      → (a : Appended p) × (append_loop p fuel buf z dev written ≡ some a)
  unfolding append_loop
  append_loop-some zero buf z dev written lt = absurd (omega arith)
  append_loop-some (suc fuel) buf z dev written lt = elim (Bool-cases (length buf == 0)) [
    | inl q ↦ rw q (_, refl)
    | inr q ↦
        let out = p.write dev buf z.wp in
        rw q (elim (Option-cases out.0) [
          | inl f ↦ rw f (_, refl)
          | inr (n, f) ↦
              let (some_n, le) = w dev out.1 buf z.wp n (ground arith) (ap (λ o. (o, out.1)) f) in
              rw f (
                append_loop-some fuel (drop n buf)
                  (record z { wp = add64 z.wp n; capacity = sub64 z.capacity n }) out.1
                  (add64 written n) (omega (arith, length-drop n buf)))
        ])
  ]

  append-some :
      (buf : List ℕ) (z : Zone) (dev : D) (written : ℕ)
      → (a : Appended p) × (append p buf z dev written ≡ some a)
  unfolding append
  append-some buf z dev written = elim (Bool-cases (ltb z.capacity (length buf))) [
    | inl q ↦ rw q (_, refl)
    | inr q ↦ rw q (append_loop-some (suc (length buf)) buf z dev written (omega arith))
  ]

  pub append_at-some :
      (i : ℕ) (buf : List ℕ) (s : Zbd D F)
      → (o : Status × Zbd D F) × (append_at p (meta i) buf s ≡ some o)
  unfolding append_at
  append_at-some i buf s = elim (Option-cases (get_elem? s.meta_zones i)) [
    | inl f ↦ ((corruption, s), rw (append_at, f) refl)
    | inr (z, f) ↦
        let (a, eq) = append-some buf z s.dev s.bytes_written in
        (
          (
            a.status,
            put_zone (meta i) a.zone (record s { dev = a.dev; bytes_written = a.written }),
          ),
          rw (append_at, f, eq) refl,
        )
  ]

-- The metadata zones stay in their places.
module _ {D F : Type 0} where
  abbrev Places : Zbd D F → Zbd D F → Type 0
  Places s t = length t.meta_zones ≡ length s.meta_zones

  acquire_at-Places : (i : ℕ) (s : Zbd D F) → Places s (acquire_at (meta i) s).1
  unfolding acquire_at
  acquire_at-Places i s = elim (Option-cases (get_elem? s.meta_zones i)) [
    | inl f ↦ rw (acquire_at, f) refl
    | inr (z, f) ↦ rw (acquire_at, f) (length-set s.meta_zones i _)
  ]

  check_release_at-Places : (i : ℕ) (s : Zbd D F) → Places s (check_release_at (meta i) s).1
  unfolding check_release_at
  check_release_at-Places i s = elim (Option-cases (get_elem? s.meta_zones i)) [
    | inl f ↦ rw (check_release_at, f) refl
    | inr (z, f) ↦ rw (check_release_at, f) (length-set s.meta_zones i _)
  ]

module _ {D F : Type 0} (p : Platform D F) where
  reset_at-Places : (i : ℕ) (s : Zbd D F) → Places s (reset_at p (meta i) s).1
  unfolding reset_at
  reset_at-Places i s = elim (Option-cases (get_elem? s.meta_zones i)) [
    | inl f ↦ rw (reset_at, f) refl
    | inr (z, f) ↦
        let r = reset_zone p z s.dev in
        let t = put_zone (meta i) r.1 (record s { dev = r.2 }) in
        rw (reset_at, f)
          (elim (Bool-cases (is_ok r.0)) [
            | inl q ↦ rw q (
                ap (λ (u : Zbd D F). length u.meta_zones) (note_reset_frame p t)
                ∙ length-set s.meta_zones i r.1)
            | inr q ↦ rw q (length-set s.meta_zones i r.1)
          ])
  ]

  -- The zone that is found is one of the metadata zones.
  abbrev pub Inside : Status × Option ℕ × Zbd D F → Type 0
  Inside (st, none, t) = Unit
  Inside (st, some j, t) = j < length t.meta_zones

  pub allocate_meta_zone_from-Inside :
      (n i : ℕ) (s : Zbd D F) → Inside (allocate_meta_zone_from p n i s)
  unfolding allocate_meta_zone_from
  allocate_meta_zone_from-Inside zero i s = tt
  allocate_meta_zone_from-Inside (suc n) i s = elim (Option-cases (get_elem? s.meta_zones i)) [
    | inl f ↦ rw (allocate_meta_zone_from, f) (allocate_meta_zone_from-Inside n (suc i) s)
    | inr (z, f) ↦
        let there = get_elem?-lt s.meta_zones i z f in
        let a = acquire_at (meta i) s in
        let r = reset_at p (meta i) a.1 in
        let c = check_release_at (meta i) r.1 in
        let a_places = acquire_at-Places i s in
        let r_places = reset_at-Places i a.1 in
        rw (allocate_meta_zone_from, f)
          (elim (Bool-cases (not a.0 || is_used z)) [
            | inl used ↦ rw used (allocate_meta_zone_from-Inside n (suc i) a.1)
            | inr free ↦ elim (Bool-cases (is_empty z)) [
              | inl empty ↦ rw (free, empty) (omega (arith, there, a_places))
              | inr full ↦ elim (Bool-cases (is_ok r.0)) [
                | inl reset ↦ rw (free, full, reset) (omega (arith, there, a_places, r_places))
                | inr failed ↦ elim (Bool-cases (is_ok c.0)) [
                  | inl go_on ↦
                      rw (free, full, failed, go_on) (allocate_meta_zone_from-Inside n (suc i) c.1)
                  | inr stop ↦ rw (free, full, failed, stop) tt
                ]
              ]
            ]
          ])
  ]
