-- ===== src/Device/Space/Lookup.antt =====
-- The io zone of an offset on the device (fs/zbd_zenfs.cc).
use zenfs.Base.{
  ℕ, zero, suc, ◌+◌, ◌≤◌, ◌<◌, ◌≡◌, refl, inl, inr, ◌&&◌, Option, none, some, List, [], ◌∷◌, arith,
  get_elem?, ltb, leb, Bool-cases,
}
use zenfs.Base.Words.{u64, add64}
use zenfs.Platform.{Platform}
use zenfs.Zone.{Zone}
use zenfs.Device.State.{Zbd}
use zenfs.Device.Space.{io_zone_from, get_io_zone}

-- The offset lies in the zone, for zones of size `size`.
abbrev pub Covers : ℕ → ℕ → Zone → Type 0
Covers size offset z = (z.start ≤ offset) × (offset < z.start + size)

-- The first zone that covers the offset, for positions from `k` on.
abbrev pub FirstCover : ℕ → ℕ → List Zone → ℕ → Option ℕ → Type 0
FirstCover size offset zs k none =
    (i : ℕ) (z : Zone) → get_elem? zs i ≡ some z → ¬ Covers size offset z
FirstCover size offset zs k (some r) =
    (i : ℕ) × (r ≡ k + i)
    × ((z : Zone) × (get_elem? zs i ≡ some z) × Covers size offset z)
    × ((j : ℕ) (z : Zone) → j < i → get_elem? zs j ≡ some z → ¬ Covers size offset z)

module _ (size offset : ℕ) where
  FirstCover-skip :
      (zs : List Zone) (z : Zone) (k : ℕ) (r : Option ℕ)
      → ¬ Covers size offset z
      → FirstCover size offset zs (suc k) r
      → FirstCover size offset (z ∷ zs) k r
  FirstCover-skip zs z k none other h = none_after
    where
      none_after : (i : ℕ) (x : Zone) → get_elem? (z ∷ zs) i ≡ some x → ¬ Covers size offset x
      none_after zero x at c = other (grind arith)
      none_after (suc i) x at c = h i x at c
  FirstCover-skip zs z k (some r) other (i, eq, found, before) =
      (suc i, omega arith, found, none_before)
    where
      none_before :
          (j : ℕ) (y : Zone) → j < suc i → get_elem? (z ∷ zs) j ≡ some y → ¬ Covers size offset y
      none_before zero y lt at c = other (grind arith)
      none_before (suc j) y lt at c = before j y (omega arith) at c

  io_zone_from-FirstCover :
      (zs : List Zone) (k : ℕ)
      → ((i : ℕ) (z : Zone) → get_elem? zs i ≡ some z → z.start + size < u64)
      → FirstCover size offset zs k (io_zone_from size offset k zs)
  unfolding io_zone_from
  io_zone_from-FirstCover [] k fits = λ i z at c. absurd (cc)
  io_zone_from-FirstCover (z ∷ zs) k fits =
      let fit : z.start + size < u64 = fits 0 z refl in
      elim (Bool-cases (leb z.start offset && ltb offset (add64 z.start size))) [
        | inl e ↦ rw e (
          0,
          omega arith,
          (z, refl, (ground arith, ground arith)),
          λ j y lt at c. absurd (omega arith),
        )
        | inr e ↦ rw e (
            FirstCover-skip zs z k (io_zone_from size offset (suc k) zs) (λ (a, b). ground arith)
              (io_zone_from-FirstCover zs (suc k) λ i y at. fits (suc i) y at))
      ]

module _ {D F : Type 0} (s : Zbd D F) where
  -- `GetIOZone` returns the first io zone that covers the offset, and nothing only if no io zone
  -- does. The zones end below 2 ^ 64.
  pub get_io_zone-FirstCover :
      (p : Platform D F) (offset : ℕ)
      → ((i : ℕ) (z : Zone) → get_elem? s.io_zones i ≡ some z → z.start + p.zone_size < u64)
      → FirstCover p.zone_size offset s.io_zones 0 (get_io_zone p offset s)
  unfolding get_io_zone
  get_io_zone-FirstCover p offset fits =
      io_zone_from-FirstCover p.zone_size offset s.io_zones 0 fits
