-- ===== src/Device/Alloc/Sweeps.antt =====
-- The sweeps over the zones, `ApplyFinishThreshold` and `ResetUnusedIOZones` (fs/zbd_zenfs.cc): the
-- busy flags and the count of open zones.
use zenfs.Base.{
  ℕ, ◌/◌, ◌≡◌, refl, ◌∙◌, inl, inr, false, not, ◌&&◌, ◌||◌, some, arith, get_elem?, set, length,
  Bool-cases, Option-cases, if◌then◌else◌, ltb, ◌==◌,
}
use zenfs.Base.Words.{mul64}
use zenfs.Base.Loop.{Flow, next, leave, for_range, Holds, for_range-Holds}
use zenfs.Status.{Status, is_ok}
use zenfs.Platform.{Platform}
use zenfs.Zone.{Zone, is_empty, is_full, is_used}
use zenfs.Device.State.{Zbd, io, put_zone, release_at, check_release_at, finish_at, reset_at}
use zenfs.Device.State.Busy.{
  acquire_at_busy, acquire_at_free, check_release_at_busy, release_at_busy,
}
use zenfs.Device.Select.Rule.{busied}
use zenfs.Device.Tokens.{put_active_io_zone_token}
use zenfs.Device.Alloc.Frame.{
  Same, finish_at_frame, reset_at_frame, changed-flags, unchanged-flags, get-acquired, get-changed,
}
use zenfs.Device.Alloc.{
  finish_threshold_body, apply_finish_threshold, loop_status, go_on_if, reset_unused_body,
  reset_unused_io_zones,
}

module _ {D F : Type 0} (s : Zbd D F) where
  abbrev Kept : Flow (Zbd D F) (Status × Zbd D F) → Type 0
  Kept = Holds (Same s) (λ r. Same s r.1)

  pub Same-trans : {t u : Zbd D F} → Same s t → Same t u → Same s u
  Same-trans a b = record {
    same_flags = b.same_flags ∙ a.same_flags;
    same_open = b.same_open ∙ a.same_open;
  }

module _ {D F : Type 0} (p : Platform D F) (s t : Zbd D F) (i : ℕ) (z : Zone) (h : Same s t)
    (at : get_elem? t.io_zones i ≡ some z) (free : z.busy ≡ false) where
  abbrev got : Zbd D F
  got = put_zone (io i) (busied z) t

  -- Nothing is done to the zone but to release it.
  left_alone : Kept s (go_on_if (check_release_at (io i) (put_zone (io i) (busied z) t)))
  left_alone =
      rw (check_release_at_busy got i (busied z) (get-acquired t.io_zones i z at) refl) (record {
        same_flags = unchanged-flags t.io_zones i z at free ∙ h.same_flags;
        same_open = h.same_open;
      })

  after_change :
      (z' : Zone) (dev : D)
      → Same s (record t {
        dev = dev;
        io_zones = set (set (set t.io_zones i (busied z)) i z') i (record z' { busy = false });
      })
  after_change z' dev = record {
    same_flags = changed-flags t.io_zones i z at z' free ∙ h.same_flags;
    same_open = h.same_open;
  }

  finished : Kept s (
      let (st, s') = finish_at p (io i) got in
      if is_ok st
      then (let (st', s'') = check_release_at (io i) s' in
          if is_ok st' then next (put_active_io_zone_token s'') else leave (st', s''))
      else leave (st, (release_at (io i) s').1))
  finished =
      let (st, z', dev, eq, b) =
        finish_at_frame p got i (busied z) (get-acquired t.io_zones i z at) in
      let s' = put_zone (io i) z' (record got { dev = dev }) in
      rw eq (elim (Bool-cases (is_ok st)) [
        | inl e ↦
            rw (e, check_release_at_busy s' i z' (get-changed t.io_zones i z at z') b)
              (unfold put_active_io_zone_token in
                record { same_flags = (after_change z' dev).same_flags; same_open = h.same_open })
        | inr e ↦
            rw (e, release_at_busy s' i z' (get-changed t.io_zones i z at z') b)
              (after_change z' dev)
      ])

  was_reset_flow : Kept s (
      let (reset_status, s') = reset_at p (io i) got in
      let (release_status, s'') = check_release_at (io i) s' in
      if not (is_ok reset_status)
      then leave (reset_status, s'')
      else if not (is_ok release_status)
      then leave (release_status, s'')
      else next (if is_full z then s'' else put_active_io_zone_token s''))
  was_reset_flow =
      let (st, z', dev, w, eq, b) =
        reset_at_frame p got i (busied z) (get-acquired t.io_zones i z at) in
      let s' = record (put_zone (io i) z' got) { dev = dev; wear = w } in
      let kept = after_change z' dev in
      rw (eq, check_release_at_busy s' i z' (get-changed t.io_zones i z at z') b)
        (elim (Bool-cases (is_ok st)) [
          | inl e ↦ rw e (elim (Bool-cases (is_full z)) [
            | inl full ↦ rw full (record { same_flags = kept.same_flags; same_open = h.same_open })
            | inr room ↦ rw room (
                unfold put_active_io_zone_token in
                record { same_flags = kept.same_flags; same_open = h.same_open })
          ])
          | inr e ↦ rw e (record { same_flags = kept.same_flags; same_open = h.same_open })
        ])

module _ {D F : Type 0} (p : Platform D F) (s : Zbd D F) where
  finish_body-Kept : (i : ℕ) (t : Zbd D F) → Same s t → Kept s (finish_threshold_body p i t)
  unfolding finish_threshold_body
  finish_body-Kept i t h = elim (Option-cases (get_elem? t.io_zones i)) [
    | inl e ↦ rw (e, finish_threshold_body) h
    | inr (z, at) ↦ elim (Bool-cases z.busy) [
      | inl b ↦ rw (at, finish_threshold_body, acquire_at_busy t i z at b) h
      | inr f ↦
          rw (at, finish_threshold_body, acquire_at_free t i z at f)
            (elim (Bool-cases (
              not (is_empty z || is_full z)
              && ltb z.capacity (mul64 z.max_capacity t.finish_threshold / 100))) [
                | inl low ↦ rw low (finished p s t i z h at f)
                | inr fine ↦ rw fine (left_alone p s t i z h at f)
              ])
    ]
  ]

  reset_body-Kept : (i : ℕ) (t : Zbd D F) → Same s t → Kept s (reset_unused_body p i t)
  unfolding reset_unused_body
  reset_body-Kept i t h = elim (Option-cases (get_elem? t.io_zones i)) [
    | inl e ↦ rw (e, reset_unused_body) h
    | inr (z, at) ↦ elim (Bool-cases z.busy) [
      | inl b ↦ rw (at, reset_unused_body, acquire_at_busy t i z at b) h
      | inr f ↦
          rw (at, reset_unused_body, acquire_at_free t i z at f)
            (elim (Bool-cases (not (is_empty z) && not (is_used z))) [
              | inl stale ↦ rw stale (was_reset_flow p s t i z h at f)
              | inr fine ↦ rw fine (left_alone p s t i z h at f)
            ])
    ]
  ]

  loop_status-Same : (f : Flow (Zbd D F) (Status × Zbd D F)) → Kept s f → Same s (loop_status f).1
  loop_status-Same (next t) h = h
  loop_status-Same (leave r) h = h

  swept :
      (body : ℕ → Zbd D F → Flow (Zbd D F) (Status × Zbd D F))
      → ((i : ℕ) (t : Zbd D F) → Same s t → Kept s (body i t))
      → Same s (loop_status (for_range (length s.io_zones) 0 body s)).1
  swept body keep = loop_status-Same _ (
      for_range-Holds (λ i t. Same s t) (λ r. Same s r.1) body (length s.io_zones) 0
        (length s.io_zones) (omega arith) (λ j t a b h. keep j t h) s
        (record { same_flags = refl; same_open = refl }))

  -- `ApplyFinishThreshold` releases every zone that it acquires, and takes and gives back no open
  -- token, also where it ends early with an error of the device.
  pub apply_finish_threshold-Same : Same s (apply_finish_threshold p s).1
  unfolding apply_finish_threshold
  apply_finish_threshold-Same = elim (Bool-cases (s.finish_threshold == 0)) [
    | inl off ↦ rw off (record { same_flags = refl; same_open = refl })
    | inr on ↦ rw on (swept (finish_threshold_body p) finish_body-Kept)
  ]

  -- `ResetUnusedIOZones` releases every zone that it acquires, and takes and gives back no open token,
  -- also where it ends early with an error of the device.
  pub reset_unused_io_zones-Same : Same s (reset_unused_io_zones p s).1
  unfolding reset_unused_io_zones
  reset_unused_io_zones-Same = swept (reset_unused_body p) reset_body-Kept
