-- ===== src/Device/Alloc/Progress.antt =====
-- How long `AllocateIOZone` goes round for an active-zone token (fs/zbd_zenfs.cc).
use zenfs.Base.{
  ℕ, zero, suc, ◌≤◌, ◌≡◌, refl, false, Option, none, some, arith, length, get_elem?, if◌then◌else◌,
}
use zenfs.Base.Int.{pos, ◌-ℤ◌, ◌≤ℤ◌, ltb_ℤ}
use zenfs.Status.{Status, ok, is_ok}
use zenfs.Platform.{Platform}
use zenfs.Zone.{Zone}
use zenfs.Device.State.{Zbd}
use zenfs.Device.Tokens.{get_active_io_zone_token_if_available}
use zenfs.Device.Select.{chosen}
use zenfs.Device.Select.Rule.{hold}
use zenfs.Device.Select.Choices.{IsPartial, choose-cheapest_zone}
use zenfs.Device.Select.Optimal.{Optimal}
use zenfs.Device.Alloc.{finish_victim, finish_cheapest_io_zone, claim_active_token}

module _ {D F : Type 0} where
  -- A zone that nobody holds and that is neither empty nor full.
  abbrev pub IsVictim : Zbd D F → ℕ → Type 0
  IsVictim s i = (z : Zone) × (get_elem? s.io_zones i ≡ some z) × (z.busy ≡ false) × IsPartial z

  -- The token is not there.
  no_token :
      (s : Zbd D F)
      → ltb_ℤ s.active_io_zones (pos s.max_nr_active_io_zones) ≡ false
      → get_active_io_zone_token_if_available s ≡ (false, s)
  unfolding get_active_io_zone_token_if_available
  no_token s h = rw h refl

module _ {D F : Type 0} (p : Platform D F) (s : Zbd D F) where
  -- What finishing gives: a token, or the device's error.
  abbrev Finished : Status × Zbd D F → Type 0
  Finished (st, t) =
      (t.max_nr_active_io_zones ≡ s.max_nr_active_io_zones)
      × (t.active_io_zones ≡ (if is_ok st then s.active_io_zones -ℤ pos 1 else s.active_io_zones))

  no_victim :
      (o : Option ℕ) (score : ℕ)
      → ((i : ℕ) → ¬ IsVictim s i)
      → Optimal IsPartial (λ z. z.capacity) (λ a b. a ≤ b) s.io_zones (length s.io_zones) o score
      → finish_victim p (chosen (record { zone = o; score = score }) (hold o s)) ≡ (ok, s)
  no_victim none score v best = refl
  no_victim (some k) score v (z, at, free, fit, eq, rest) = absurd (v k (z, at, free, fit))

  finish_cheapest_nothing : ((i : ℕ) → ¬ IsVictim s i) → finish_cheapest_io_zone p s ≡ (ok, s)
  unfolding finish_cheapest_io_zone
  finish_cheapest_nothing v =
      let (h, eq, w, best) = choose-cheapest_zone s in rw eq (no_victim h.zone h.score v best)

module _ {D F : Type 0} (p : Platform D F) where
  -- Without a zone to finish, and with all active-zone tokens taken, it goes round for ever: a loop
  -- that does not sleep, and that only another thread can end.
  pub claim_active_token-spins :
      (fuel : ℕ) (s : Zbd D F)
      → ((i : ℕ) → ¬ IsVictim s i)
      → pos s.max_nr_active_io_zones ≤ℤ s.active_io_zones
      → claim_active_token p fuel false s ≡ none
  unfolding claim_active_token
  claim_active_token-spins zero s v le = refl
  claim_active_token-spins (suc fuel) s v le =
      rw (no_token s (ground arith), finish_cheapest_nothing p s v)
        (claim_active_token-spins fuel s v le)
