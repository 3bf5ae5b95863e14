-- ===== src/Device/State/Wakeups.antt =====
-- When `Zone::Reset` wakes the wear-levelling worker (fs/zbd_zenfs.cc).
use zenfs.Base.{ℕ, ◌+◌, ◌<◌, ◌≡◌, refl, true, false, arith, ltb, leb}
use zenfs.Base.Words.{u32, add32, sub32, mul32}
use zenfs.Platform.{Platform}
use zenfs.Device.State.{Zbd, note_reset, wake_if_due, get_meta_zone_reset_count_now}

module _ {D F : Type 0} (p : Platform D F) where
  wakes :
      (io : ℕ) (t : Zbd D F)
      → p.double.gt
          (p.double.of_ℕ (mul32 100 (sub32 io t.check_reset_count)))
          (p.double.mul (p.double.of_ℕ io) t.reset_ratio_threshold)
        ≡ true
      → leb p.nr_zones (sub32 io t.check_reset_count) ≡ true
      → ((wake_if_due p io t).wl_worker_sleep ≡ false)
        × ((wake_if_due p io t).check_reset_count ≡ io)
  unfolding wake_if_due
  wakes io t a b = rw (wake_if_due, a, b) (refl, refl)

  wraps_high : (io nr : ℕ) → io < nr → nr + nr < u32 → leb nr (sub32 io nr) ≡ true
  wraps_high io nr few fit = ground arith

module _ {D F : Type 0} (p : Platform D F) (s : Zbd D F) (io : ℕ) where
  -- The counters as the test sees them.
  abbrev raised : Zbd D F
  raised = record s {
    wear = record (s.wear) {
      total_reset_count = add32 s.total_reset_count 1;
      check_reset_count = p.nr_zones;
    };
  }

  note_reset_step :
      io ≡ sub32 (add32 s.total_reset_count 1) (get_meta_zone_reset_count_now s)
      → p.nr_zones < add32 s.total_reset_count 1
      → s.check_reset_count < p.nr_zones
      → note_reset p s ≡ wake_if_due p io raised
  unfolding note_reset
  note_reset_step eq above low =
      let over : ltb p.nr_zones (add32 s.total_reset_count 1) ≡ true = ground arith in
      let under : ltb s.check_reset_count p.nr_zones ≡ true = ground arith in
      rw (eq, note_reset, over, under) refl

  -- In `Zone::Reset` the worker is woken although the io zones have been reset less often than there
  -- are zones, if the resets of metadata zones bring the total above that number: the check count has
  -- then just been raised to the number of zones, the difference to it wraps around, and so it passes
  -- the test against the number of zones. The other test is a hypothesis on the comparison of doubles.
  pub note_reset-wake_if_due :
      io ≡ sub32 (add32 s.total_reset_count 1) (get_meta_zone_reset_count_now s)
      → p.nr_zones < add32 s.total_reset_count 1
      → s.check_reset_count < p.nr_zones
      → io < p.nr_zones
      → p.nr_zones + p.nr_zones < u32
      → p.double.gt
          (p.double.of_ℕ (mul32 100 (sub32 io p.nr_zones)))
          (p.double.mul (p.double.of_ℕ io) s.reset_ratio_threshold)
        ≡ true
      → ((note_reset p s).wl_worker_sleep ≡ false) × ((note_reset p s).check_reset_count ≡ io)
  note_reset-wake_if_due eq above low few fit test =
      rw (note_reset_step eq above low)
        (wakes p io raised test (wraps_high p io p.nr_zones few fit))
