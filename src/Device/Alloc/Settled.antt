-- ===== src/Device/Alloc/Settled.antt =====
-- The part of `AllocateIOZone` (fs/zbd_zenfs.cc) that runs with an open token in hand.
use zenfs.Base.{
  ℕ, zero, suc, ◌≡◌, refl, sym, ap, ◌∙◌, inl, inr, Bool, true, false, not, ◌&&◌, Option, none, some,
  List, arith, get_elem?, set, set-set, subst, length, Bool-cases, Option-cases, leb, ◌==◌,
}
use zenfs.Base.Int.{ℤ, pos, ◌+ℤ◌, ◌-ℤ◌, int_laws}
use zenfs.Status.{Status, ok, is_ok}
use zenfs.Platform.{Platform}
use zenfs.Zone.{Zone, lifetime_diff_could_be_worse}
use zenfs.Device.State.{Zbd, io, put_zone, check_release_at}
use zenfs.Device.State.Busy.{check_release_at_busy}
use zenfs.Device.Tokens.{
  get_active_io_zone_token_if_available, put_open_io_zone_token, put_active_io_zone_token,
}
use zenfs.Device.Select.{chosen}
use zenfs.Device.Select.Rule.{busied, hold, hold_in, WasFree}
use zenfs.Device.Select.Choices.{
  get_best_open_zone_match-Optimal, allocate_empty_zone-Optimal, choose-cheapest_zone,
}
use zenfs.Device.Alloc.{
  finish_cheapest_io_zone, finish_victim, claim_active_token, use_empty_zone, open_empty_zone,
  use_best_match, allocate_holding_token,
}
use zenfs.Device.Alloc.Frame.{
  Same, flags, finish_at_frame, flags-set, get-flags, changed-flags, unchanged-flags, get-acquired,
  get-changed,
}
use zenfs.Device.Alloc.Sweeps.{Same-trans}

-- The flags with one zone acquired.
abbrev pub mark : Option ℕ → List Bool → List Bool
mark none l = l
mark (some i) l = set l i true

pub flags-hold_in :
    (zs : List Zone) (n : ℕ) (o : Option ℕ)
    → WasFree zs n o
    → flags (hold_in o zs) ≡ mark o (flags zs)
flags-hold_in zs n none w = refl
flags-hold_in zs n (some i) w =
    let (lt, found) = w in let (z, at, free) = found in rw (at, hold_in) (flags-set zs i (busied z))

pub Same-refl : {D F : Type 0} (s : Zbd D F) → Same s s
Same-refl s = record { same_flags = refl; same_open = refl }

pub plus_minus : (n : ℤ) → n +ℤ pos 1 -ℤ pos 1 ≡ n
plus_minus n = omega int_laws

module _ {D F : Type 0} (p : Platform D F) where
  victim-Same :
      (s : Zbd D F) (n : ℕ) (o : Option ℕ) (score : ℕ)
      → WasFree s.io_zones n o
      → Same s (finish_victim p (chosen (record { zone = o; score = score }) (hold o s))).1
  victim-Same s n none score w = Same-refl s
  victim-Same s n (some i) score w =
      let (lt, found) = w in
      let (z, at, free) = found in
      let (st, z', dev, eq, b) =
        finish_at_frame p (put_zone (io i) (busied z) s) i (busied z)
          (get-acquired s.io_zones i z at) in
      let s' =
        put_zone (io i) z' (record s { dev = dev; io_zones = set s.io_zones i (busied z) }) in
      let back = changed-flags s.io_zones i z at z' free in
      rw (at, hold_in, eq, check_release_at_busy s' i z' (get-changed s.io_zones i z at z') b)
        (elim (Bool-cases (is_ok st)) [
          | inl e ↦
              rw e
                (unfold put_active_io_zone_token in record { same_flags = back; same_open = refl })
          | inr e ↦ rw e (record { same_flags = back; same_open = refl })
        ])

  finish_cheapest-Same : (s : Zbd D F) → Same s (finish_cheapest_io_zone p s).1
  unfolding finish_cheapest_io_zone
  finish_cheapest-Same s =
      let (h, eq, w, best) = choose-cheapest_zone s in
      rw eq (victim-Same s (length s.io_zones) h.zone h.score w)

  get_active-Same : (s : Zbd D F) → Same s (get_active_io_zone_token_if_available s).1
  unfolding get_active_io_zone_token_if_available
  get_active-Same s = ground arith

  abbrev AllSame : Zbd D F → Option (Status × Zbd D F) → Type 0
  AllSame s none = Unit {0}
  AllSame s (some r) = Same s r.1

  AllSame-trans :
      (s t : Zbd D F) (r : Option (Status × Zbd D F)) → Same s t → AllSame t r → AllSame s r
  AllSame-trans s t none a b = tt
  AllSame-trans s t (some r) a b = Same-trans s a b

  claim-Same : (fuel : ℕ) (got : Bool) (s : Zbd D F) → AllSame s (claim_active_token p fuel got s)
  unfolding claim_active_token
  claim-Same zero got s = tt
  claim-Same (suc fuel) true s = Same-refl s
  claim-Same (suc fuel) false s =
      let s' = (get_active_io_zone_token_if_available s).1 in
      let a = get_active-Same s in
      let b = Same-trans s a (finish_cheapest-Same s') in
      elim (Bool-cases (get_active_io_zone_token_if_available s).0) [
        | inl e ↦ rw e a
        | inr e ↦ rw e (elim (Bool-cases (is_ok (finish_cheapest_io_zone p s').0)) [
          | inl f ↦
              rw f (AllSame-trans s _ _ b (claim-Same fuel false (finish_cheapest_io_zone p s').1))
          | inr f ↦ rw f b
        ])
      ]

  -- With one open token in hand: the caller keeps it if it gets a zone, and has given it back if not.
  abbrev pub Settled : Zbd D F → Status × Option ℕ × Zbd D F → Type 0
  Settled s (st, none, t) =
      (flags t.io_zones ≡ flags s.io_zones) × (t.open_io_zones ≡ s.open_io_zones -ℤ pos 1)
  Settled s (st, some i, t) =
      (get_elem? (flags s.io_zones) i ≡ some false)
      × (flags t.io_zones ≡ set (flags s.io_zones) i true)
      × (t.open_io_zones ≡ s.open_io_zones)

  abbrev pub AllSettled : Zbd D F → Option (Status × Option ℕ × Zbd D F) → Type 0
  AllSettled s none = Unit {0}
  AllSettled s (some r) = Settled s r

  Settled-trans :
      (s t : Zbd D F) (r : Status × Option ℕ × Zbd D F) → Same s t → Settled t r → Settled s r
  Settled-trans s t (st, none, u) a b = (b.0 ∙ a.same_flags, b.1 ∙ ap (λ n. n -ℤ pos 1) a.same_open)
  Settled-trans s t (st, some i, u) a b = (
    sym (ap (λ l. get_elem? l i) a.same_flags) ∙ b.0,
    b.1 ∙ ap (λ l. set l i true) a.same_flags,
    b.2 ∙ a.same_open,
  )

  use_empty-Settled :
      (lifetime : ℕ) (s : Zbd D F) (n : ℕ) (o : Option ℕ) (score : ℕ)
      → WasFree s.io_zones n o
      → Settled s
          (use_empty_zone p lifetime (chosen (record { zone = o; score = score }) (hold o s)))
  use_empty-Settled lifetime s n none score w =
      unfold put_open_io_zone_token put_active_io_zone_token in (refl, refl)
  use_empty-Settled lifetime s n (some i) score w =
      let (lt, found) = w in
      let (z, at, free) = found in
      rw (at, hold_in, get-acquired s.io_zones i z at)
        (
          get-flags s.io_zones i z at ∙ ap some free,
          ap flags (set-set s.io_zones i (busied z) (record z { busy = true; lifetime = lifetime }))
              ∙ flags-set s.io_zones i (record z { busy = true; lifetime = lifetime }),
          refl,
        )

  open_empty-Settled :
      (fuel : ℕ) (got : Bool) (lifetime : ℕ) (s : Zbd D F)
      → AllSettled s (open_empty_zone p fuel got lifetime s)
  unfolding open_empty_zone
  open_empty-Settled fuel got lifetime s = elim (Option-cases (claim_active_token p fuel got s)) [
    | inl e ↦ rw (e, open_empty_zone) tt
    | inr ((st, t), e) ↦
        let a : Same s t = subst (AllSame s) e (claim-Same fuel got s) in
        rw (e, open_empty_zone)
          (elim (Bool-cases (is_ok st)) [
            | inl f ↦
                let (h, eq, w, best) = allocate_empty_zone-Optimal t lifetime in
                rw (f, eq)
                  (Settled-trans s t (use_empty_zone p lifetime (chosen h (hold h.zone t))) a
                    (use_empty-Settled lifetime t (length t.io_zones) h.zone h.score w))
            | inr f ↦
                rw f (
                  unfold put_open_io_zone_token in (a.same_flags, ap (λ n. n -ℤ pos 1) a.same_open))
          ])
  ]

  AllSettled-trans :
      (s t : Zbd D F) (r : Option (Status × Option ℕ × Zbd D F))
      → Same s t
      → AllSettled t r
      → AllSettled s r
  AllSettled-trans s t none a b = tt
  AllSettled-trans s t (some r) a b = Settled-trans s t r a b

  -- The zone held is released again, with or without an active token taken in between.
  let_go-Same :
      (s t : Zbd D F) (i : ℕ) (z : Zone)
      → get_elem? s.io_zones i ≡ some z
      → z.busy ≡ false
      → t.io_zones ≡ set s.io_zones i (busied z)
      → t.open_io_zones ≡ s.open_io_zones
      → ((check_release_at (io i) t).0 ≡ ok) × Same s (check_release_at (io i) t).1
  let_go-Same s t i z at free e f =
      let here = ap (λ l. get_elem? l i) e ∙ get-acquired s.io_zones i z at in
      rw (check_release_at_busy t i (busied z) here refl) (
        refl,
        record {
          same_flags =
              ap (λ l. flags (set l i (record z { busy = false }))) e
              ∙ unchanged-flags s.io_zones i z at free;
          same_open = f;
        },
      )

  get_active_keeps :
      (s : Zbd D F)
      → ((get_active_io_zone_token_if_available s).1.io_zones ≡ s.io_zones)
        × ((get_active_io_zone_token_if_available s).1.open_io_zones ≡ s.open_io_zones)
  unfolding get_active_io_zone_token_if_available
  get_active_keeps s = ground arith

  held_zone-Settled :
      (s t : Zbd D F) (i : ℕ) (z : Zone) (st : Status)
      → get_elem? s.io_zones i ≡ some z
      → z.busy ≡ false
      → t.io_zones ≡ set s.io_zones i (busied z)
      → t.open_io_zones ≡ s.open_io_zones
      → Settled s (st, some i, t)
  held_zone-Settled s t i z st at free e f = (
    get-flags s.io_zones i z at ∙ ap some free,
    ap flags e ∙ flags-set s.io_zones i (busied z),
    f,
  )

  best_match-Settled :
      (fuel lifetime : ℕ) (s : Zbd D F) (n : ℕ) (o : Option ℕ) (score : ℕ)
      → WasFree s.io_zones n o
      → AllSettled s
          (use_best_match p fuel lifetime (chosen (record { zone = o; score = score }) (hold o s)))
  best_match-Settled fuel lifetime s n none score w =
      elim (Bool-cases (leb lifetime_diff_could_be_worse score)) [
        | inl e ↦ rw e (
            AllSettled-trans s _ _ (get_active-Same s) (
              open_empty-Settled fuel (get_active_io_zone_token_if_available s).0 lifetime
                (get_active_io_zone_token_if_available s).1))
        | inr e ↦ rw e (unfold put_open_io_zone_token in (refl, refl))
      ]
  best_match-Settled fuel lifetime s n (some i) score w =
      let (lt, found) = w in
      let (z, at, free) = found in
      let t = put_zone (io i) (busied z) s in
      let got = get_active_io_zone_token_if_available t in
      let kept = get_active_keeps t in
      let back = let_go-Same s got.1 i z at free kept.0 kept.1 in
      rw (at, hold_in)
        (elim (Bool-cases (leb lifetime_diff_could_be_worse score)) [
          | inl e ↦ rw e (elim (Bool-cases (not got.0 && score == lifetime_diff_could_be_worse)) [
            | inl relax ↦ rw relax (held_zone-Settled s got.1 i z ok at free kept.0 kept.1)
            | inr other ↦
                rw (other, back.0)
                  (AllSettled-trans s _ _ back.1
                    (open_empty-Settled fuel got.0 lifetime (check_release_at (io i) got.1).1))
          ])
          | inr e ↦ rw e (held_zone-Settled s t i z ok at free refl refl)
        ])

  pub holding-Settled :
      (fuel lifetime : ℕ) (s : Zbd D F) → AllSettled s (allocate_holding_token p fuel lifetime s)
  unfolding allocate_holding_token
  holding-Settled fuel lifetime s =
      let (h, eq, w, best) = get_best_open_zone_match-Optimal s lifetime 0 in
      rw eq (best_match-Settled fuel lifetime s (length s.io_zones) h.zone h.score w)
