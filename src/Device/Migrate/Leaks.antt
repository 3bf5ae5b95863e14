-- ===== src/Device/Migrate/Leaks.antt =====
-- The open-zone token that a migration takes (fs/zbd_zenfs.cc).
use zenfs.Base.{
  ℕ, ◌≤◌, ◌≡◌, refl, ◌∙◌, inl, inr, Option-cases, true, false, Option, none, some, arith, length,
  get_elem?,
}
use zenfs.Base.Int.{pos, ◌+ℤ◌, ltb_ℤ}
use zenfs.Status.{Status}
use zenfs.Zone.{Zone}
use zenfs.Device.State.{Zbd, check_release_at}
use zenfs.Device.Select.{Choice, Held, chosen, choose, worn_empty_zone, worn_open_zone}
use zenfs.Device.Select.Rule.{hold, WasFree, choose_lem}
use zenfs.Device.Select.Optimal.{Optimises, Optimal, choose-Optimal, Matches, IfHeld}
use zenfs.Device.Select.Choices.{HasNoData}
use zenfs.Device.Migrate.{
  target_found, second_choice, use_worn_empty, get_migrate_target_zone, release_migrate_zone,
}

module _ {D F : Type 0} (c : Choice D F) (s : Zbd D F) where
  -- Any choice ends with at most one zone more acquired.
  chosen_one :
      (score : ℕ)
      → (h : Held) × (choose c score s ≡ chosen h (hold h.zone s))
        × WasFree s.io_zones (length s.io_zones) h.zone
        × Unit {0}
  chosen_one score =
      choose_lem c s (λ n h. Unit {0}) (λ h. Unit {0})
        (record {
          busy = λ i h z at b q. tt;
          pass = λ i h z at free w e q. tt;
          take = λ i k h z at free w e l q. tt;
          stop = λ i k h z at free w e l q. tt;
        })
        score tt (λ h q. tt)

module _ (D F : Type 0) where
  worn_empty_Optimises :
      Optimises (worn_empty_zone {D = D} {F = F}) 0 HasNoData (λ z. z.reset_count) (λ a b. b ≤ a)
  unfolding worn_empty_zone
  worn_empty_Optimises = record {
    le_refl = λ a. omega arith;
    le_trans = λ a b d x y. omega arith;
    blind = λ z. refl;
    blind_fit = λ z h. h;
    takes = worn_takes;
    passes = worn_passes;
    stops = λ score e z. absurd (cc);
  }
    where
      worn_takes :
          (z : Zone) (o : Option Zone) (score score' : ℕ)
          → Matches HasNoData (λ y. y.reset_count) 0 o score
          → (worn_empty_zone {D = D} {F = F}).better z o score ≡ some score'
          → HasNoData z × (score' ≡ z.reset_count) × IfHeld o Unit (score ≤ z.reset_count)
      worn_takes z none score score' q e = ground arith
      worn_takes z (some h) score score' q e = ground arith

      worn_passes :
          (z : Zone) (o : Option Zone) (score : ℕ)
          → Matches HasNoData (λ y. y.reset_count) 0 o score
          → (worn_empty_zone {D = D} {F = F}).better z o score ≡ none
          → HasNoData z
          → IfHeld o ⊥ (z.reset_count ≤ score)
      worn_passes z none score q e fit = ground arith
      worn_passes z (some h) score q e fit = ground arith

module _ {D F : Type 0} where
  target_keeps :
      (s : Zbd D F) (o : Option ℕ) (score : ℕ)
      → (target_found (chosen (record { zone = o; score = score }) (hold o s))).2.open_io_zones
        ≡ s.open_io_zones
  target_keeps s none score = refl
  target_keeps s (some i) score = refl

  second_keeps :
      (lifetime min : ℕ) (s : Zbd D F)
      → (second_choice lifetime min s).2.open_io_zones ≡ s.open_io_zones
  second_keeps lifetime min s =
      let (h, eq, w, q) = chosen_one (worn_open_zone lifetime min) s 0 in
      rw eq (target_keeps s h.zone h.score)

  no_empty_zone :
      (lifetime min : ℕ) (s : Zbd D F) (o : Option ℕ) (score : ℕ)
      → ((i : ℕ) (z : Zone) → get_elem? s.io_zones i ≡ some z → z.busy ≡ false → ¬ HasNoData z)
      → Optimal HasNoData (λ z. z.reset_count) (λ a b. b ≤ a) s.io_zones (length s.io_zones) o score
      → (use_worn_empty lifetime min
          (chosen (record { zone = o; score = score }) (hold o s))).2.open_io_zones
        ≡ s.open_io_zones
  no_empty_zone lifetime min s none score no_empty best = second_keeps lifetime min s
  no_empty_zone lifetime min s (some i) score no_empty (z, at, free, fit, eq, rest) =
      absurd (no_empty i z at free fit)

  release_migrate_keeps :
      (o : Option ℕ) (s : Zbd D F) → (release_migrate_zone o s).1.open_io_zones ≡ s.open_io_zones
  unfolding release_migrate_zone check_release_at
  release_migrate_keeps none s = refl
  release_migrate_keeps (some i) s = elim (Option-cases (get_elem? s.io_zones i)) [
    | inl e ↦ rw (e, check_release_at) refl
    | inr (z, e) ↦ rw (e, check_release_at) refl
  ]

  target_step :
      (lifetime min : ℕ) (s : Zbd D F)
      → s.migrating ≡ false
      → ltb_ℤ s.open_io_zones (pos s.max_nr_open_io_zones) ≡ true
      → get_migrate_target_zone lifetime min s
        ≡ some (
            use_worn_empty lifetime min (
              choose worn_empty_zone 0
                (record s { migrating = true; open_io_zones = s.open_io_zones +ℤ pos 1 })))
  unfolding get_migrate_target_zone
  target_step lifetime min s idle room = rw (get_migrate_target_zone, idle, room) refl

  -- The open-zone token that `GetMigrateTargetZone` takes is not given back where no empty zone is
  -- free: whatever zone it then returns, if any, the count of open zones is one higher when it
  -- returns, and still one higher when `ReleaseMigrateZone` has released that zone.
  pub get_migrate_target_zone-Leaks :
      (lifetime min : ℕ) (s : Zbd D F)
      → ((i : ℕ) (z : Zone) → get_elem? s.io_zones i ≡ some z → z.busy ≡ false → ¬ HasNoData z)
      → s.migrating ≡ false
      → ltb_ℤ s.open_io_zones (pos s.max_nr_open_io_zones) ≡ true
      → (r : Status × Option ℕ × Zbd D F) × (get_migrate_target_zone lifetime min s ≡ some r)
        × (r.2.open_io_zones ≡ s.open_io_zones +ℤ pos 1)
        × ((release_migrate_zone r.1 r.2).1.open_io_zones ≡ s.open_io_zones +ℤ pos 1)
  get_migrate_target_zone-Leaks lifetime min s no_empty idle room =
      let t = record s { migrating = true; open_io_zones = s.open_io_zones +ℤ pos 1 } in
      let (h, eq, w, best) =
        choose-Optimal worn_empty_zone 0 HasNoData (λ z. z.reset_count) (λ a b. b ≤ a)
          (worn_empty_Optimises D F) t in
      let r = use_worn_empty lifetime min (chosen h (hold h.zone t)) in
      let kept = no_empty_zone lifetime min t h.zone h.score no_empty best in
      (
        r,
        target_step lifetime min s idle room ∙ rw eq refl,
        kept,
        release_migrate_keeps r.1 r.2 ∙ kept,
      )
