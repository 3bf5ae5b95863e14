-- ===== src/Device/Alloc/LiveData.antt =====
-- `ResetUnusedIOZones` (fs/zbd_zenfs.cc) and the zones that are in use.
use zenfs.Base.{
  ℕ, ◌<◌, ◌≡◌, ◌≢◌, refl, sym, ap, ◌∙◌, ◌⊎◌, inl, inr, true, false, not, ◌&&◌, some, arith,
  get_elem?, set, set-get_elem?, set-set, get_elem?-set_ne, length, Bool-cases, Option-cases,
  if◌then◌else◌,
}
use zenfs.Base.Loop.{Flow, next, leave, Holds, for_range-Holds}
use zenfs.Status.{Status, is_ok}
use zenfs.Platform.{Platform}
use zenfs.Zone.{Zone, is_empty, is_full, is_used}
use zenfs.Device.State.{Zbd, io, put_zone, check_release_at, reset_at}
use zenfs.Device.State.Busy.{acquire_at_busy, acquire_at_free, check_release_at_busy}
use zenfs.Device.Select.Rule.{busied}
use zenfs.Device.Tokens.{put_active_io_zone_token}
use zenfs.Device.Alloc.Frame.{reset_at_frame, get-acquired, get-changed}
use zenfs.Device.Alloc.{go_on_if, loop_status, reset_unused_body, reset_unused_io_zones}

module _ {D F : Type 0} (p : Platform D F) (j : ℕ) (y : Zone) where
  abbrev There : Zbd D F → Type 0
  There t = get_elem? t.io_zones j ≡ some y

  abbrev Stays : Flow (Zbd D F) (Status × Zbd D F) → Type 0
  Stays = Holds There (λ r. There r.1)

  released : (z : Zone) → z.busy ≡ false → record z { busy = false } ≡ z
  released z h = λ i. record z { busy = sym h i }

  -- Another zone changes, however it does.
  elsewhere :
      (i : ℕ) (a b c : Zone) (t : Zbd D F)
      → i ≢ j
      → There t
      → get_elem? (set (set (set t.io_zones i a) i b) i c) j ≡ some y
  elsewhere i a b c t ne h =
      get_elem?-set_ne (set (set t.io_zones i a) i b) i j c ne
      ∙ get_elem?-set_ne (set t.io_zones i a) i j b ne
      ∙ get_elem?-set_ne t.io_zones i j a ne
      ∙ h

  -- The zone is only acquired and released.
  given_back :
      (i : ℕ) (z : Zone) (t : Zbd D F)
      → get_elem? t.io_zones i ≡ some z
      → z.busy ≡ false
      → There t
      → Stays (go_on_if (check_release_at (io i) (put_zone (io i) (busied z) t)))
  given_back i z t at free h =
      let got = put_zone (io i) (busied z) t in
      let back =
        set-set t.io_zones i (busied z) (record z { busy = false })
        ∙ ap (set t.io_zones i) (released z free)
        ∙ set-get_elem? t.io_zones i z at in
      rw (check_release_at_busy got i (busied z) (get-acquired t.io_zones i z at) refl, back) h

  reset_elsewhere :
      (i : ℕ) (z : Zone) (t : Zbd D F)
      → i ≢ j
      → get_elem? t.io_zones i ≡ some z
      → There t
      → Stays (
          let (reset_status, s') = reset_at p (io i) (put_zone (io i) (busied z) t) in
          let (release_status, s'') = check_release_at (io i) s' in
          if not (is_ok reset_status)
          then leave (reset_status, s'')
          else if not (is_ok release_status)
          then leave (release_status, s'')
          else next (if is_full z then s'' else put_active_io_zone_token s''))
  reset_elsewhere i z t ne at h =
      let got = put_zone (io i) (busied z) t in
      let (st, z', dev, w, eq, b) =
        reset_at_frame p got i (busied z) (get-acquired t.io_zones i z at) in
      let s' = record (put_zone (io i) z' got) { dev = dev; wear = w } in
      let kept = elsewhere i (busied z) z' (record z' { busy = false }) t ne h in
      rw (eq, check_release_at_busy s' i z' (get-changed t.io_zones i z at z') b)
        (elim (Bool-cases (is_ok st)) [
          | inl e ↦ rw e (elim (Bool-cases (is_full z)) [
            | inl full ↦ rw full kept
            | inr room ↦ rw room (unfold put_active_io_zone_token in kept)
          ])
          | inr e ↦ rw e kept
        ])

  not_stale :
      y.busy ≡ true ⊎ 0 < y.used_capacity
      → y.busy ≡ false
      → not (is_empty y) && not (is_used y) ≡ true
      → ⊥
  not_stale (inl held) f e = cc
  not_stale (inr live) f e = ground arith

  body-Stays :
      y.busy ≡ true ⊎ 0 < y.used_capacity
      → (i : ℕ) (t : Zbd D F) → There t
      → Stays (reset_unused_body p i t)
  unfolding reset_unused_body
  body-Stays safe i t h = elim (Option-cases (get_elem? t.io_zones i)) [
    | inl e ↦ rw (e, reset_unused_body) h
    | inr (z, at) ↦ elim (Bool-cases z.busy) [
      | inl b ↦ rw (at, reset_unused_body, acquire_at_busy t i z at b) h
      | inr f ↦
          rw (at, reset_unused_body, acquire_at_free t i z at f)
            (elim (Bool-cases (not (is_empty z) && not (is_used z))) [
              | inl stale ↦
                  let other : i ≢ j = (λ q.
                    let same : z ≡ y = cc in not_stale safe (rw (← same) f) (rw (← same) stale)) in
                  rw stale (reset_elsewhere i z t other at h)
              | inr fine ↦ rw fine (given_back i z t at f h)
            ])
    ]
  ]

  loop_status-There : (f : Flow (Zbd D F) (Status × Zbd D F)) → Stays f → There (loop_status f).1
  loop_status-There (next t) h = h
  loop_status-There (leave r) h = h

  -- A zone that somebody holds, or that has live data, is the same after `ResetUnusedIOZones`, also
  -- where it ends early with an error.
  pub reset_unused_io_zones-There :
      (s : Zbd D F)
      → y.busy ≡ true ⊎ 0 < y.used_capacity
      → get_elem? s.io_zones j ≡ some y
      → get_elem? (reset_unused_io_zones p s).1.io_zones j ≡ some y
  unfolding reset_unused_io_zones
  reset_unused_io_zones-There s safe at = loop_status-There _ (
      for_range-Holds (λ i t. There t) (λ r. There r.1) (reset_unused_body p) (length s.io_zones) 0
        (length s.io_zones) (omega arith) (λ i t a b h. body-Stays safe i t h) s at)
