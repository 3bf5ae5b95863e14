-- ===== src/Examples/Device.antt =====
-- Examples of the theorems on zones and on the zoned block device.
use zenfs.Base.{
  ℕ, zero, suc, ◌+◌, ◌≤◌, ◌<◌, ◌≡◌, refl, ◌⊎◌, inr, true, false, Option, none, some, [], ◌∷◌, ◌++◌,
  arith, length, get_elem?,
}
use zenfs.Base.Int.{pos, ◌+ℤ◌}
use zenfs.Base.Words.{u64}
use zenfs.Status.{Status, ok, no_space}
use zenfs.Zone.{Zone, Appended, append, get_life_time_diff, wlth_medium}
use zenfs.Zone.Valid.{IsValid, Outcome, append-IsValid}
use zenfs.Device.State.{Zbd}
use zenfs.Device.Select.{
  Held, chosen, choose, cheapest_zone, get_best_open_zone_match, allocate_empty_zone,
}
use zenfs.Device.Select.Rule.{hold, WasFree}
use zenfs.Device.Select.Optimal.{Optimal}
use zenfs.Device.Select.Choices.{
  IsOpenMatch, IsPartial, HasNoData, WearOrder, get_best_open_zone_match-Optimal,
  allocate_empty_zone-Optimal, choose-cheapest_zone,
}
use zenfs.Device.Alloc.{
  allocate_io_zone, apply_finish_threshold, reset_unused_io_zones, claim_active_token,
}
use zenfs.Device.Alloc.Frame.{Same}
use zenfs.Device.Alloc.Sweeps.{apply_finish_threshold-Same, reset_unused_io_zones-Same}
use zenfs.Device.Alloc.Accounting.{Booked, allocate_io_zone-Booked}
use zenfs.Device.Alloc.Progress.{IsVictim, claim_active_token-spins}
use zenfs.Base.Words.{add32, sub32}
use zenfs.Device.State.{note_reset, get_meta_zone_reset_count_now}
use zenfs.Device.State.Wakeups.{note_reset-wake_if_due}
use zenfs.Device.Tokens.{wait_for_open_io_zone_token}
use zenfs.Device.Open.Wraps.{wait_for_open_io_zone_token-unlimited}
use zenfs.Device.Alloc.LiveData.{reset_unused_io_zones-There}
use zenfs.Device.Migrate.{get_migrate_target_zone, release_migrate_zone}
use zenfs.Device.Migrate.Leaks.{get_migrate_target_zone-Leaks}
use zenfs.Device.Open.{open_zbd, take_meta_zones, io_zone_limit, zenfs_meta_zones}
use zenfs.Device.Open.Limits.{usable_zones, active_zones, open_zbd-Ready}
use zenfs.Device.Space.{get_io_zone}
use zenfs.Device.Space.Lookup.{FirstCover, get_io_zone-FirstCover}
use zenfs.Examples.Sample.{
  platform, infos, zone_at, zbd_with, zbd, zbd_without_empty, zbd_full, backend-WritesSome,
}

-- What a write-ahead log gets from the sample device: all active-zone tokens are taken, so that it
-- shares a zone with data of the same lifetime.
abbrev allocated : Status × Option ℕ × Zbd ℕ ℕ
allocated = (
  ok,
  some 1,
  record zbd {
    io_zones =
        zone_at 0 1024 512 3
        ∷ record (zone_at 4096 4000 100 1) { busy = true }
        ∷ zone_at 8192 0 0 5
        ∷ zone_at 12288 0 0 2
        ∷ [];
    open_io_zones = pos 2;
  },
)

allocate_io_zone-run : allocate_io_zone platform 2 wlth_medium true zbd ≡ some allocated
unfolding allocate_io_zone
allocate_io_zone-run = refl

allocate_io_zone-Booked_example : Booked platform zbd allocated
allocate_io_zone-Booked_example =
    allocate_io_zone-Booked platform 2 wlth_medium true zbd allocated allocate_io_zone-run

get_best_open_zone_match-Optimal_example :
    (h : Held) × (get_best_open_zone_match 4 100 zbd ≡ chosen h (hold h.zone zbd))
    × WasFree zbd.io_zones 4 h.zone
    × Optimal
        (IsOpenMatch 4 100)
        (λ z. get_life_time_diff z.lifetime 4)
        (λ a b. a ≤ b)
        zbd.io_zones
        4
        h.zone
        h.score
get_best_open_zone_match-Optimal_example = get_best_open_zone_match-Optimal zbd 4 100

allocate_empty_zone-Optimal_example :
    (h : Held) × (allocate_empty_zone 3 zbd ≡ chosen h (hold h.zone zbd))
    × WasFree zbd.io_zones 4 h.zone
    × Optimal HasNoData (λ z. z.reset_count) (WearOrder 3) zbd.io_zones 4 h.zone h.score
allocate_empty_zone-Optimal_example = allocate_empty_zone-Optimal zbd 3

choose-cheapest_zone_example :
    (h : Held) × (choose cheapest_zone 0 zbd ≡ chosen h (hold h.zone zbd))
    × WasFree zbd.io_zones 4 h.zone
    × Optimal IsPartial (λ z. z.capacity) (λ a b. a ≤ b) zbd.io_zones 4 h.zone h.score
choose-cheapest_zone_example = choose-cheapest_zone zbd

apply_finish_threshold-Same_example : Same zbd (apply_finish_threshold platform zbd).1
apply_finish_threshold-Same_example = apply_finish_threshold-Same platform zbd

reset_unused_io_zones-Same_example : Same zbd (reset_unused_io_zones platform zbd).1
reset_unused_io_zones-Same_example = reset_unused_io_zones-Same platform zbd

partly_written-IsValid : IsValid 4096 (zone_at 0 1024 512 3)
partly_written-IsValid = record {
  fits = omega arith;
  above = omega arith;
  room = omega arith;
  capacity_le = omega arith;
  max_le = omega arith;
  live = omega arith;
}

append-IsValid_example :
    (a : Appended platform) × (append platform (1 ∷ 2 ∷ []) (zone_at 0 1024 512 3) 0 7 ≡ some a)
    × IsValid 4096 a.zone
    × (((a.status ≡ no_space)
          × (3072 < 2)
          × (a.zone ≡ zone_at 0 1024 512 3)
          × (a.dev ≡ 0)
          × (a.written ≡ 7))
        ⊎ ((2 ≤ 3072) × Outcome platform 0 (1 ∷ 2 ∷ []) 2 (zone_at 0 1024 512 3) 7 a))
append-IsValid_example =
    append-IsValid platform backend-WritesSome 4096 (1 ∷ 2 ∷ []) (zone_at 0 1024 512 3) 0 7
      partly_written-IsValid (omega arith)

abbrev to_open : Zbd ℕ ℕ
to_open = zbd_with []

open_zbd-Ready_example :
    let (st, t) = open_zbd platform false true to_open in
    (st ≡ ok)
    × (t.meta_zones ++ t.io_zones ≡ usable_zones infos)
    × (length t.meta_zones ≤ zenfs_meta_zones)
    × (t.open_io_zones ≡ pos 0)
    × (t.active_io_zones ≡ pos (active_zones (take_meta_zones 0 infos).1))
    × (t.max_nr_active_io_zones ≡ 12)
    × (t.max_nr_open_io_zones ≡ 12)
open_zbd-Ready_example =
    open_zbd-Ready platform false true to_open 0 14 14 infos refl refl refl refl (omega arith) refl
      refl (omega arith) (omega arith)

full-IsVictim : (i : ℕ) → ¬ IsVictim zbd_full i
full-IsVictim zero (z, at, free, fit) = let room = fit.1 in ground arith
full-IsVictim (suc i) (z, at, free, fit) = absurd (cc)

claim_active_token-spins_example : claim_active_token platform 1000 false zbd_full ≡ none
claim_active_token-spins_example =
    claim_active_token-spins platform 1000 zbd_full full-IsVictim (omega arith)

without_empty :
    (i : ℕ) (z : Zone)
    → get_elem? zbd_without_empty.io_zones i ≡ some z
    → z.busy ≡ false
    → ¬ HasNoData z
without_empty zero z at free e = ground arith
without_empty (suc zero) z at free e = ground arith
without_empty (suc (suc i)) z at free e = absurd (cc)

get_migrate_target_zone-Leaks_example :
    (r : Status × Option ℕ × Zbd ℕ ℕ) × (get_migrate_target_zone 3 100 zbd_without_empty ≡ some r)
    × (r.2.open_io_zones ≡ pos 1 +ℤ pos 1)
    × ((release_migrate_zone r.1 r.2).1.open_io_zones ≡ pos 1 +ℤ pos 1)
get_migrate_target_zone-Leaks_example =
    get_migrate_target_zone-Leaks 3 100 zbd_without_empty without_empty refl refl

zones_fit :
    (i : ℕ) (z : Zone) → get_elem? zbd_without_empty.io_zones i ≡ some z → z.start + 4096 < u64
zones_fit zero z at = ground arith
zones_fit (suc zero) z at = ground arith
zones_fit (suc (suc i)) z at = absurd (cc)

get_io_zone-FirstCover_example :
    FirstCover 4096 5000 zbd_without_empty.io_zones 0 (get_io_zone platform 5000 zbd_without_empty)
get_io_zone-FirstCover_example = get_io_zone-FirstCover zbd_without_empty platform 5000 zones_fit

reset_unused_io_zones-There_example :
    get_elem? (reset_unused_io_zones platform zbd).1.io_zones 0 ≡ some (zone_at 0 1024 512 3)
reset_unused_io_zones-There_example =
    reset_unused_io_zones-There platform 0 (zone_at 0 1024 512 3) zbd (inr (omega arith)) refl

-- The limits of a backend that reports 2 open zones.
abbrev few_open : Zbd ℕ ℕ
few_open = record zbd { max_nr_open_io_zones = io_zone_limit 32 2 }

wait_for_open_io_zone_token-unlimited_example :
    wait_for_open_io_zone_token false few_open
    ≡ some (record few_open { open_io_zones = pos 1 +ℤ pos 1 })
wait_for_open_io_zone_token-unlimited_example =
    wait_for_open_io_zone_token-unlimited few_open 32 2 1 (omega arith) (omega arith) refl refl
      (omega arith)

-- 33 resets, of which 10 are of a metadata zone.
abbrev often_reset : Zbd ℕ ℕ
often_reset = record zbd {
  meta_zones = zone_at 16384 0 0 10 ∷ [];
  wear = record (zbd.wear) { total_reset_count = 32 };
}

io_zones_reset_count_example : 23 ≡ sub32 (add32 32 1) (get_meta_zone_reset_count_now often_reset)
unfolding get_meta_zone_reset_count_now
io_zones_reset_count_example = refl

note_reset-wake_if_due_example :
    ((note_reset platform often_reset).wl_worker_sleep ≡ false)
    × ((note_reset platform often_reset).check_reset_count ≡ 23)
note_reset-wake_if_due_example =
    note_reset-wake_if_due platform often_reset 23 io_zones_reset_count_example (omega arith)
      (omega arith) (omega arith) (omega arith) refl
