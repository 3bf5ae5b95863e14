-- ===== src/Device/Alloc/Frame.antt =====
-- The busy flags and the count of open zones in the loops of the allocator (fs/zbd_zenfs.cc).
use zenfs.Base.{
  ℕ, zero, suc, ◌≡◌, refl, sym, ap, ◌∙◌, inl, inr, Bool, false, some, List, [], ◌∷◌, arith,
  get_elem?, set, set-get_elem?, get_elem?-set_self, set-set, Bool-cases,
}
use zenfs.Status.{Status, ok, is_ok}
use zenfs.Platform.{Platform}
use zenfs.Zone.{Zone, finish, reset_zone}
use zenfs.Device.State.{Zbd, Wear, io, put_zone, finish_at, reset_at, note_reset}
use zenfs.Device.Select.Rule.{busied}

abbrev pub flags : List Zone → List Bool
flags [] = []
flags (z ∷ zs) = z.busy ∷ flags zs

pub flags-set : (zs : List Zone) (i : ℕ) (z : Zone) → flags (set zs i z) ≡ set (flags zs) i z.busy
flags-set [] i z = refl
flags-set (x ∷ zs) zero z = refl
flags-set (x ∷ zs) (suc i) z = ap (◌∷◌ x.busy) (flags-set zs i z)

pub get-flags :
    (zs : List Zone) (i : ℕ) (z : Zone)
    → get_elem? zs i ≡ some z
    → get_elem? (flags zs) i ≡ some z.busy
get-flags [] i z e = absurd (cc)
get-flags (x ∷ zs) zero z e = ground (arith, e)
get-flags (x ∷ zs) (suc i) z e = get-flags zs i z e

-- The flags are those of before, if a zone is replaced by one with the same flag.
pub flags-set_same :
    (zs : List Zone) (i : ℕ) (z z' : Zone)
    → get_elem? zs i ≡ some z
    → z'.busy ≡ z.busy
    → flags (set zs i z') ≡ flags zs
flags-set_same zs i z z' at e =
    flags-set zs i z' ∙ set-get_elem? (flags zs) i z'.busy (get-flags zs i z at ∙ ap some (sym e))

module _ {D F : Type 0} where
  pub record Same (s t : Zbd D F) : Type 0 where
    pub same_flags : flags t.io_zones ≡ flags s.io_zones
    pub same_open : t.open_io_zones ≡ s.open_io_zones

pub note_reset_frame :
    {D F : Type 0} (p : Platform D F) (s : Zbd D F)
    → note_reset p s ≡ record s { wear = (note_reset p s).wear }
unfolding note_reset
note_reset_frame p s = ground arith

module _ {D F : Type 0} (p : Platform D F) (t : Zbd D F) (i : ℕ) (z : Zone)
    (at : get_elem? t.io_zones i ≡ some z) where
  pub finish_at_frame :
      (st : Status) × (z' : Zone) × (dev' : D) × (finish_at p (io i) t
        ≡ (st, put_zone (io i) z' (record t { dev = dev' })))
      × (z'.busy ≡ z.busy)
  unfolding finish_at
  finish_at_frame =
      let r = finish p z t.dev in (r.0, r.1, r.2, rw (at, finish_at), unfold finish in ground arith)

  pub reset_at_frame :
      (st : Status) × (z' : Zone) × (dev' : D) × (w : Wear F) × (reset_at p (io i) t
        ≡ (st, record (put_zone (io i) z' t) { dev = dev'; wear = w }))
      × (z'.busy ≡ z.busy)
  unfolding reset_at
  reset_at_frame =
      let r = reset_zone p z t.dev in
      let t' = put_zone (io i) r.1 (record t { dev = r.2 }) in
      let kept : r.1.busy ≡ z.busy = unfold reset_zone in ground arith in
      elim (Bool-cases (is_ok r.0)) [
        | inl e ↦ (
          ok,
          r.1,
          r.2,
          (note_reset p t').wear,
          rw (at, reset_at, e, ← note_reset_frame p t') refl,
          kept,
        )
        | inr e ↦ (r.0, r.1, r.2, t.wear, rw (at, reset_at, e) refl, kept)
      ]

-- A zone that was free is acquired, and released as it is or changed in some way.
module _ (zs : List Zone) (i : ℕ) (z : Zone) (at : get_elem? zs i ≡ some z) where
  pub get-acquired : get_elem? (set zs i (busied z)) i ≡ some (busied z)
  get-acquired = get_elem?-set_self zs i z (busied z) at

  pub get-changed : (z' : Zone) → get_elem? (set (set zs i (busied z)) i z') i ≡ some z'
  get-changed z' = get_elem?-set_self (set zs i (busied z)) i (busied z) z' get-acquired

  pub unchanged-flags :
      z.busy ≡ false → flags (set (set zs i (busied z)) i (record z { busy = false })) ≡ flags zs
  unchanged-flags free =
      ap flags (set-set zs i (busied z) (record z { busy = false }))
      ∙ flags-set_same zs i z (record z { busy = false }) at (sym free)

  pub changed-flags :
      (z' : Zone)
      → z.busy ≡ false
      → flags (set (set (set zs i (busied z)) i z') i (record z' { busy = false })) ≡ flags zs
  changed-flags z' free =
      ap (λ l. flags (set l i (record z' { busy = false }))) (set-set zs i (busied z) z')
      ∙ ap flags (set-set zs i z' (record z' { busy = false }))
      ∙ flags-set_same zs i z (record z' { busy = false }) at (sym free)
