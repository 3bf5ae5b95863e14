-- ===== src/Device/Alloc/Accounting.antt =====
-- The books of `AllocateIOZone` (fs/zbd_zenfs.cc): who holds which zone, and the count of open zones.
use zenfs.Base.{
  ℕ, ◌≡◌, refl, sym, ap, ◌∙◌, inl, inr, Bool, true, false, Option, none, some, arith, get_elem?,
  set, subst, Bool-cases, Option-cases, if◌then◌else◌,
}
use zenfs.Base.Int.{pos, ◌+ℤ◌, ◌-ℤ◌}
use zenfs.Status.{Status, ok, is_ok}
use zenfs.Platform.{Platform}
use zenfs.Device.State.{Zbd}
use zenfs.Device.Tokens.{wait_for_open_io_zone_token}
use zenfs.Device.Alloc.{allocate_holding_token, allocate_io_zone, apply_finish_threshold}
use zenfs.Device.Alloc.Frame.{Same, flags}
use zenfs.Device.Alloc.Sweeps.{apply_finish_threshold-Same}
use zenfs.Device.Alloc.Settled.{Settled, AllSettled, plus_minus, Same-refl, holding-Settled}

module _ {D F : Type 0} (p : Platform D F) where
  -- What the caller has after `AllocateIOZone`, from the state before it.
  abbrev pub Booked : Zbd D F → Status × Option ℕ × Zbd D F → Type 0
  Booked s (st, none, t) =
      (flags t.io_zones ≡ flags s.io_zones) × (t.open_io_zones ≡ s.open_io_zones)
  Booked s (st, some i, t) =
      (get_elem? (flags s.io_zones) i ≡ some false)
      × (flags t.io_zones ≡ set (flags s.io_zones) i true)
      × (t.open_io_zones ≡ s.open_io_zones +ℤ pos 1)

  abbrev AllBooked : Zbd D F → Option (Status × Option ℕ × Zbd D F) → Type 0
  AllBooked s none = Unit {0}
  AllBooked s (some r) = Booked s r

  Settled-Booked :
      (s t u : Zbd D F) (r : Status × Option ℕ × Zbd D F)
      → Same s t
      → u ≡ record t { open_io_zones = t.open_io_zones +ℤ pos 1 }
      → Settled p u r
      → Booked s r
  Settled-Booked s t u (st, none, x) a e b = (
    b.0 ∙ ap (λ (y : Zbd D F). flags y.io_zones) e ∙ a.same_flags,
    b.1
        ∙ ap (λ (y : Zbd D F). y.open_io_zones -ℤ pos 1) e
        ∙ plus_minus t.open_io_zones
        ∙ a.same_open,
  )
  Settled-Booked s t u (st, some i, x) a e b =
      let f = ap (λ (y : Zbd D F). flags y.io_zones) e ∙ a.same_flags in
      (
        sym (ap (λ l. get_elem? l i) f) ∙ b.0,
        b.1 ∙ ap (λ l. set l i true) f,
        b.2 ∙ ap (λ (y : Zbd D F). y.open_io_zones) e ∙ ap (λ n. n +ℤ pos 1) a.same_open,
      )

  AllSettled-Booked :
      (s t u : Zbd D F) (r : Option (Status × Option ℕ × Zbd D F))
      → Same s t
      → u ≡ record t { open_io_zones = t.open_io_zones +ℤ pos 1 }
      → AllSettled p u r
      → AllBooked s r
  AllSettled-Booked s t u none a e b = tt
  AllSettled-Booked s t u (some r) a e b = Settled-Booked s t u r a e b

  wait_takes_one :
      (prioritized : Bool) (s t : Zbd D F)
      → wait_for_open_io_zone_token prioritized s ≡ some t
      → t ≡ record s { open_io_zones = s.open_io_zones +ℤ pos 1 }
  unfolding wait_for_open_io_zone_token
  wait_takes_one prioritized s t e = ground arith

  after_threshold :
      (fuel lifetime : ℕ) (is_wal : Bool) (s t : Zbd D F)
      → Same s t
      → AllBooked s (elim (wait_for_open_io_zone_token is_wal t) [
        | none ↦ none
        | some u ↦ allocate_holding_token p fuel lifetime u
      ])
  after_threshold fuel lifetime is_wal s t a =
      elim (Option-cases (wait_for_open_io_zone_token is_wal t)) [
        | inl e ↦ rw (e, AllBooked) tt
        | inr (u, e) ↦
            rw (e, AllBooked)
              (AllSettled-Booked s t u (allocate_holding_token p fuel lifetime u) a
                (wait_takes_one is_wal t u e) (holding-Settled p fuel lifetime u))
      ]

  AllBooked-allocate :
      (fuel lifetime : ℕ) (is_wal : Bool) (s : Zbd D F)
      → AllBooked s (allocate_io_zone p fuel lifetime is_wal s)
  unfolding allocate_io_zone
  AllBooked-allocate fuel lifetime is_wal s = elim (Bool-cases (is_ok s.zone_deferred_status)) [
    | inr e ↦ rw e (refl, refl)
    | inl e ↦ rw e (go is_wal)
  ]
    where
      go :
          (is_wal : Bool)
          → AllBooked s (
              let (st, s') = (if is_wal then (ok, s) else apply_finish_threshold p s) in
              if is_ok st
              then elim (wait_for_open_io_zone_token is_wal s') [
                | none ↦ none
                | some s'' ↦ allocate_holding_token p fuel lifetime s''
              ]
              else some (st, none, s'))
      go true = after_threshold fuel lifetime true s s (Same-refl s)
      go false =
          let kept = apply_finish_threshold-Same p s in
          elim (Bool-cases (is_ok (apply_finish_threshold p s).0)) [
            | inl f ↦
                rw f (after_threshold fuel lifetime false s (apply_finish_threshold p s).1 kept)
            | inr f ↦ rw f (kept.same_flags, kept.same_open)
          ]

  -- Whenever `AllocateIOZone` returns, with success or with an error: if it hands out a zone, then
  -- nobody held that zone before, the caller now holds it and one open-zone token more, and every
  -- other zone is held as before; if it hands out none, then every zone is held as before and the
  -- open-zone token is given back.
  pub allocate_io_zone-Booked :
      (fuel lifetime : ℕ) (is_wal : Bool) (s : Zbd D F) (r : Status × Option ℕ × Zbd D F)
      → allocate_io_zone p fuel lifetime is_wal s ≡ some r
      → Booked s r
  allocate_io_zone-Booked fuel lifetime is_wal s r e =
      subst (AllBooked s) e (AllBooked-allocate fuel lifetime is_wal s)
