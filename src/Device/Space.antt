-- ===== src/Device/Space.antt =====
-- The queries of `ZonedBlockDevice` over its zones: space, the zone of an offset, the least worn
-- zone, and the reset counters as an array (fs/zbd_zenfs.cc).
pub mod Lookup
use zenfs.Base.{
  ℕ, zero, suc, ◌-◌, ◌++◌, length, ltb, ◌*◌, ◌/◌, Bool, true, false, not, ◌&&◌, ◌||◌, Option, none,
  some, List, [], ◌∷◌, ◌++◌, map, if◌then◌else◌, ltb, leb, ◌==◌,
}
use zenfs.Base.Words.{sub32, add64, sub64, mul64}
use zenfs.Status.{Status, ok, not_found}
use zenfs.Platform.{Platform}
use zenfs.Zone.{
  Zone, is_used, is_full, is_empty, get_zone_reclaimable_space, wlth_extreme, wlth_not_set,
}
use zenfs.Device.State.{Zbd}

unfoldable pub free_space : List Zone → ℕ
free_space [] = 0
free_space (z ∷ zs) = add64 z.capacity (free_space zs)

unfoldable pub used_space : List Zone → ℕ
used_space [] = 0
used_space (z ∷ zs) = add64 z.used_capacity (used_space zs)

unfoldable pub reclaimable_space : List Zone → ℕ
reclaimable_space [] = 0
reclaimable_space (z ∷ zs) =
    add64 (if is_full z then sub64 z.max_capacity z.used_capacity else 0) (reclaimable_space zs)

-- `GetIOZone`, from position `i` on.
unfoldable pub io_zone_from : ℕ → ℕ → ℕ → List Zone → Option ℕ
io_zone_from zone_size offset i [] = none
io_zone_from zone_size offset i (z ∷ zs) =
    if leb z.start offset && ltb offset (add64 z.start zone_size)
    then some i
    else io_zone_from zone_size offset (suc i) zs

-- The best zone so far in `GetLeastResetCountZone`: its position, itself and its score.
abbrev Least : Type 0
Least = ℕ × Zone × ℕ

abbrev pub beats_least : Zone → ℕ → Option Least → Bool
beats_least z score none = true
beats_least z score (some (j, least, least_score)) =
    ltb score least_score
    || (score == least_score
        && ltb (get_zone_reclaimable_space least) (get_zone_reclaimable_space z))

unfoldable pub least_reset_count_from : ℕ → Option Least → List Zone → Option Least
unfolding get_zone_reclaimable_space
least_reset_count_from i least [] = least
least_reset_count_from i least (z ∷ zs) =
    let reclaimable = get_zone_reclaimable_space z in
    let score = mul64 z.reset_count z.max_capacity / reclaimable in
    least_reset_count_from (suc i)
      (if not (is_empty z)
          && is_used z
          && z.lifetime == wlth_extreme
          && not (reclaimable == 0)
          && beats_least z score least
        then some (i, z, score)
        else least)
      zs

-- `GetLifetimeZeroZone`: the positions of the live zones without a lifetime.
unfoldable pub lifetime_zero_from : ℕ → List Zone → List ℕ
lifetime_zero_from i [] = []
lifetime_zero_from i (z ∷ zs) =
    let rest = lifetime_zero_from (suc i) zs in
    if is_used z && z.lifetime == wlth_not_set then i ∷ rest else rest

-- `SetIOZonesResetCount`, for an array that is at least as long as the vector of zones.
-- `GetNrIOZones`: all zones but three.
abbrev pub nr_io_zones : ℕ → ℕ
nr_io_zones nr_zones = sub32 nr_zones 3

-- The entries that nothing has been stored to.
unfoldable pub memory_from : (ℕ → ℕ) → ℕ → ℕ → List ℕ
memory_from memory i zero = []
memory_from memory i (suc n) = memory i ∷ memory_from memory (suc i) n

unfoldable pub set_reset_counts : List ℕ → List Zone → List Zone
set_reset_counts (c ∷ cs) (z ∷ zs) = record z { reset_count = c } ∷ set_reset_counts cs zs
set_reset_counts cs zs = zs

module _ {D F : Type 0} where
  unfoldable pub get_free_space : Zbd D F → ℕ
  unfolding free_space
  get_free_space s = free_space s.io_zones

  unfoldable pub get_used_space : Zbd D F → ℕ
  unfolding used_space
  get_used_space s = used_space s.io_zones

  unfoldable pub get_reclaimable_space : Zbd D F → ℕ
  unfolding reclaimable_space
  get_reclaimable_space s = reclaimable_space s.io_zones

  unfoldable pub get_least_reset_count_zone : Zbd D F → Status × Option ℕ
  unfolding least_reset_count_from
  get_least_reset_count_zone s = elim (least_reset_count_from 0 none s.io_zones) [
    | none ↦ (not_found, none)
    | some (i, z, score) ↦ (ok, some i)
  ]

  unfoldable pub get_lifetime_zero_zone : Zbd D F → List ℕ
  unfolding lifetime_zero_from
  get_lifetime_zero_zone s = lifetime_zero_from 0 s.io_zones

  -- `new uint32_t[GetNrIOZones()]`, with what the memory held behind the counters that are set. `none`:
  -- there are more io zones than entries.
  unfoldable pub get_io_zones_reset_count_array : ℕ → (ℕ → ℕ) → Zbd D F → Option (List ℕ)
  unfolding memory_from
  get_io_zones_reset_count_array entries memory s =
      let counts = map (λ (z : Zone). z.reset_count) s.io_zones in
      if ltb entries (length counts)
      then none
      else some (counts ++ memory_from memory (length counts) (entries - length counts))

  unfoldable pub set_io_zones_reset_count : List ℕ → Zbd D F → Zbd D F
  unfolding set_reset_counts
  set_io_zones_reset_count counts s = record s { io_zones = set_reset_counts counts s.io_zones }

module _ {D F : Type 0} (p : Platform D F) where
  unfoldable pub get_io_zone : ℕ → Zbd D F → Option ℕ
  unfolding io_zone_from
  get_io_zone offset s = io_zone_from p.zone_size offset 0 s.io_zones
