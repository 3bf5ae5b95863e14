-- ===== src/Device/Select/Choices.antt =====
-- The choices of fs/zbd_zenfs.cc: which zones fit, and what is optimised.
use zenfs.Base.{ℕ, ◌≤◌, ◌<◌, ◌≡◌, ◌≢◌, refl, Option, none, some, arith, length, ltb, if◌then◌else◌}
use zenfs.Zone.{Zone, get_life_time_diff, lifetime_diff_not_good, wlth_short}
use zenfs.Device.State.{Zbd}
use zenfs.Device.Select.{
  Held, chosen, choose, best_open_zone, cheapest_zone, empty_zone_for, get_best_open_zone_match,
  allocate_empty_zone,
}
use zenfs.Device.Select.Rule.{hold, WasFree}
use zenfs.Device.Select.Optimal.{Optimises, Optimal, choose-Optimal, Matches, IfHeld}

-- A zone with live data and enough room, and not ruled out by its lifetime number.
abbrev pub IsOpenMatch : ℕ → ℕ → Zone → Type 0
IsOpenMatch file_lifetime min_capacity z =
    (0 < z.used_capacity)
    × (0 < z.capacity)
    × (min_capacity ≤ z.capacity)
    × (get_life_time_diff z.lifetime file_lifetime ≤ lifetime_diff_not_good)

-- A zone that is neither empty nor full.
abbrev pub IsPartial : Zone → Type 0
IsPartial z = (z.wp ≢ z.start) × (0 < z.capacity)

abbrev pub HasNoData : Zone → Type 0
HasNoData z = z.wp ≡ z.start

-- More worn first for short-lived data, and less worn first for other data.
abbrev pub WearOrder : ℕ → ℕ → ℕ → Type 0
WearOrder file_lifetime a b = if ltb file_lifetime wlth_short then (b ≤ a) else (a ≤ b)

module _ (D F : Type 0) where
  best_open_takes :
      (file_lifetime min_capacity : ℕ) (z : Zone) (o : Option Zone) (score score' : ℕ)
      → Matches
          (IsOpenMatch file_lifetime min_capacity)
          (λ y. get_life_time_diff y.lifetime file_lifetime)
          100
          o
          score
      → (best_open_zone {D = D} {F = F} file_lifetime min_capacity).better z o score ≡ some score'
      → IsOpenMatch file_lifetime min_capacity z
        × (score' ≡ get_life_time_diff z.lifetime file_lifetime)
        × IfHeld o Unit (get_life_time_diff z.lifetime file_lifetime ≤ score)
  unfolding best_open_zone
  best_open_takes f m z none score score' p e = ground arith
  best_open_takes f m z (some h) score score' p e = ground arith

  best_open_passes :
      (file_lifetime min_capacity : ℕ) (z : Zone) (o : Option Zone) (score : ℕ)
      → Matches
          (IsOpenMatch file_lifetime min_capacity)
          (λ y. get_life_time_diff y.lifetime file_lifetime)
          100
          o
          score
      → (best_open_zone {D = D} {F = F} file_lifetime min_capacity).better z o score ≡ none
      → IsOpenMatch file_lifetime min_capacity z
      → IfHeld o ⊥ (score ≤ get_life_time_diff z.lifetime file_lifetime)
  unfolding best_open_zone
  best_open_passes f m z none score p e fit = ground arith
  best_open_passes f m z (some h) score p e fit = ground arith

  best_open_Optimises :
      (file_lifetime min_capacity : ℕ)
      → Optimises
          (best_open_zone {D = D} {F = F} file_lifetime min_capacity)
          lifetime_diff_not_good
          (IsOpenMatch file_lifetime min_capacity)
          (λ z. get_life_time_diff z.lifetime file_lifetime)
          (λ a b. a ≤ b)
  unfolding best_open_zone
  best_open_Optimises f m = record {
    le_refl = λ a. omega arith;
    le_trans = λ a b d x y. omega arith;
    blind = λ z. refl;
    blind_fit = λ z h. h;
    takes = best_open_takes f m;
    passes = best_open_passes f m;
    stops = λ score e z. absurd (cc);
  }

  cheapest_takes :
      (z : Zone) (o : Option Zone) (score score' : ℕ)
      → Matches IsPartial (λ y. y.capacity) 0 o score
      → (cheapest_zone {D = D} {F = F}).better z o score ≡ some score'
      → IsPartial z × (score' ≡ z.capacity) × IfHeld o Unit (z.capacity ≤ score)
  unfolding cheapest_zone
  cheapest_takes z none score score' p e = ground arith
  cheapest_takes z (some h) score score' p e = ground arith

  cheapest_passes :
      (z : Zone) (o : Option Zone) (score : ℕ)
      → Matches IsPartial (λ y. y.capacity) 0 o score
      → (cheapest_zone {D = D} {F = F}).better z o score ≡ none
      → IsPartial z
      → IfHeld o ⊥ (score ≤ z.capacity)
  unfolding cheapest_zone
  cheapest_passes z none score p e fit = ground arith
  cheapest_passes z (some h) score p e fit = ground arith

  cheapest_Optimises :
      Optimises (cheapest_zone {D = D} {F = F}) 0 IsPartial (λ z. z.capacity) (λ a b. a ≤ b)
  unfolding cheapest_zone
  cheapest_Optimises = record {
    le_refl = λ a. omega arith;
    le_trans = λ a b d x y. omega arith;
    blind = λ z. refl;
    blind_fit = λ z h. h;
    takes = cheapest_takes;
    passes = cheapest_passes;
    stops = λ score e z. absurd (cc);
  }

  empty_takes :
      (file_lifetime : ℕ) (z : Zone) (o : Option Zone) (score score' : ℕ)
      → Matches HasNoData (λ y. y.reset_count) 0 o score
      → (empty_zone_for {D = D} {F = F} file_lifetime).better z o score ≡ some score'
      → HasNoData z
        × (score' ≡ z.reset_count)
        × IfHeld o Unit (WearOrder file_lifetime z.reset_count score)
  unfolding empty_zone_for
  empty_takes f z none score score' p e = ground arith
  empty_takes f z (some h) score score' p e = ground arith

  empty_passes :
      (file_lifetime : ℕ) (z : Zone) (o : Option Zone) (score : ℕ)
      → Matches HasNoData (λ y. y.reset_count) 0 o score
      → (empty_zone_for {D = D} {F = F} file_lifetime).better z o score ≡ none
      → HasNoData z
      → IfHeld o ⊥ (WearOrder file_lifetime score z.reset_count)
  unfolding empty_zone_for
  empty_passes f z none score p e fit = ground arith
  empty_passes f z (some h) score p e fit = ground arith

  empty_Optimises :
      (file_lifetime : ℕ)
      → Optimises
          (empty_zone_for {D = D} {F = F} file_lifetime)
          0
          HasNoData
          (λ z. z.reset_count)
          (WearOrder file_lifetime)
  unfolding empty_zone_for
  empty_Optimises f = record {
    le_refl = λ a. ground arith;
    le_trans = λ a b d x y. ground arith;
    blind = λ z. refl;
    blind_fit = λ z h. h;
    takes = empty_takes f;
    passes = empty_passes f;
    stops = λ score e z. ground arith;
  }

module _ {D F : Type 0} (s : Zbd D F) where
  abbrev nr : ℕ
  nr = length s.io_zones

  -- `GetBestOpenZoneMatch` never fails. It acquires at most one zone and changes nothing else. Of the
  -- zones that nobody holds, with live data, room for `min_capacity` bytes and a lifetime difference
  -- of at most 100, it takes one of least lifetime difference; it takes none only if there is none.
  pub get_best_open_zone_match-Optimal :
      (file_lifetime min_capacity : ℕ)
      → (h : Held) × (get_best_open_zone_match file_lifetime min_capacity s
          ≡ chosen h (hold h.zone s))
        × WasFree s.io_zones nr h.zone
        × Optimal
            (IsOpenMatch file_lifetime min_capacity)
            (λ z. get_life_time_diff z.lifetime file_lifetime)
            (λ a b. a ≤ b)
            s.io_zones
            nr
            h.zone
            h.score
  unfolding get_best_open_zone_match
  get_best_open_zone_match-Optimal f m =
      choose-Optimal (best_open_zone f m) lifetime_diff_not_good (IsOpenMatch f m)
        (λ z. get_life_time_diff z.lifetime f) (λ a b. a ≤ b) (best_open_Optimises D F f m) s

  -- `AllocateEmptyZone` never fails. It acquires at most one zone and changes nothing else. Of the
  -- empty zones that nobody holds it takes one with the most resets for a lifetime below
  -- `WLTH_SHORT`, and one with the fewest for any other; it takes none only if there is none.
  pub allocate_empty_zone-Optimal :
      (file_lifetime : ℕ)
      → (h : Held) × (allocate_empty_zone file_lifetime s ≡ chosen h (hold h.zone s))
        × WasFree s.io_zones nr h.zone
        × Optimal HasNoData
            (λ z. z.reset_count)
            (WearOrder file_lifetime)
            s.io_zones
            nr
            h.zone
            h.score
  unfolding allocate_empty_zone
  allocate_empty_zone-Optimal f =
      choose-Optimal (empty_zone_for f) 0 HasNoData (λ z. z.reset_count) (WearOrder f)
        (empty_Optimises D F f) s

  -- The loop of `FinishCheapestIOZone` chooses, of the zones that nobody holds and that are neither
  -- empty nor full, one with the least room left; it chooses none only if there is none.
  pub choose-cheapest_zone :
      (h : Held) × (choose cheapest_zone 0 s ≡ chosen h (hold h.zone s))
      × WasFree s.io_zones nr h.zone
      × Optimal IsPartial (λ z. z.capacity) (λ a b. a ≤ b) s.io_zones nr h.zone h.score
  choose-cheapest_zone =
      choose-Optimal cheapest_zone 0 IsPartial (λ z. z.capacity) (λ a b. a ≤ b)
        (cheapest_Optimises D F) s
