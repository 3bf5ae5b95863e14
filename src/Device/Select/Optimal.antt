-- ===== src/Device/Select/Optimal.antt =====
-- Choices of fs/zbd_zenfs.cc that compare a value of the zones.
use zenfs.Base.{
  ℕ, suc, ◌<◌, ◌≡◌, refl, sym, subst, ap, ◌∙◌, ◌⊎◌, inl, inr, true, false, Option, none, some, List,
  arith, get_elem?, length,
}
use zenfs.Zone.{Zone}
use zenfs.Device.State.{Zbd}
use zenfs.Device.Select.{Held, Choice, chosen, choose}
use zenfs.Device.Select.Rule.{busied, seen, hold, WasFree, Keeps, choose_lem}

le_split : (j i : ℕ) → j < suc i → (j < i) ⊎ (j ≡ i)
le_split j i h = grind arith

-- The score agrees with the zone held; it is `start` while there is none.
abbrev pub Matches : (Zone → Type 0) → (Zone → ℕ) → ℕ → Option Zone → ℕ → Type 0
Matches Fit v start none score = score ≡ start
Matches Fit v start (some h) score = (v h ≡ score) × Fit h

abbrev pub IfHeld : Option Zone → Type 0 → Type 0 → Type 0
IfHeld none A B = A
IfHeld (some h) A B = B

-- What makes a choice optimise the value `v`, in the order `Le`, over the zones with `Fit`.
pub record Optimises {D F : Type 0} (c : Choice D F) (start : ℕ) (Fit : Zone → Type 0)
    (v : Zone → ℕ) (Le : ℕ → ℕ → Type 0) : Type 0 where
  pub le_refl : (a : ℕ) → Le a a
  pub le_trans : (a b d : ℕ) → Le a b → Le b d → Le a d
  pub blind : (z : Zone) → v (busied z) ≡ v z
  pub blind_fit : (z : Zone) → Fit z → Fit (busied z)
  pub takes :
      (z : Zone) (o : Option Zone) (score score' : ℕ)
      → Matches Fit v start o score
      → c.better z o score ≡ some score'
      → Fit z × (score' ≡ v z) × IfHeld o Unit (Le (v z) score)
  pub passes :
      (z : Zone) (o : Option Zone) (score : ℕ)
      → Matches Fit v start o score
      → c.better z o score ≡ none
      → Fit z
      → IfHeld o ⊥ (Le score (v z))
  pub stops : (score : ℕ) → c.last score ≡ true → (z : Zone) → Le score (v z)

module _ (Fit : Zone → Type 0) (v : Zone → ℕ) (Le : ℕ → ℕ → Type 0) (zs : List Zone) where
  -- Of the free and fit zones below position `n`, the zone held is an optimal one; none is held only
  -- if there is no such zone.
  abbrev pub Optimal : ℕ → Option ℕ → ℕ → Type 0
  Optimal n none score =
      (j : ℕ) (z : Zone) → j < n → get_elem? zs j ≡ some z → z.busy ≡ false → ¬ Fit z
  Optimal n (some i) score =
      (z : Zone) × (get_elem? zs i ≡ some z)
      × (z.busy ≡ false)
      × Fit z
      × (score ≡ v z)
      × ((j : ℕ) (w : Zone)
          → j < n
          → get_elem? zs j ≡ some w
          → w.busy ≡ false
          → Fit w
          → Le score (v w))

module _ {D F : Type 0} (c : Choice D F) (start : ℕ) (Fit : Zone → Type 0) (v : Zone → ℕ)
    (Le : ℕ → ℕ → Type 0) (o : Optimises c start Fit v Le) (s : Zbd D F) where
  abbrev zs : List Zone
  zs = s.io_zones

  abbrev Inv : ℕ → Option ℕ → ℕ → Type 0
  Inv n k score =
      Matches Fit v start (seen k s.io_zones) score × Optimal Fit v Le s.io_zones n k score

  same_zone :
      (j : ℕ) (z w : Zone)
      → get_elem? s.io_zones j ≡ some z
      → get_elem? s.io_zones j ≡ some w
      → z ≡ w
  same_zone j z w a b = cc

  keep_busy :
      (i : ℕ) (k : Option ℕ) (score : ℕ) (z : Zone)
      → get_elem? s.io_zones i ≡ some z
      → z.busy ≡ true
      → Inv i k score
      → Inv (suc i) k score
  keep_busy i none score z at b (m, none_fit) = (
    m,
    λ j w lt atj free. elim (le_split j i lt) [
      | inl below ↦ none_fit j w below atj free
      | inr here ↦ cc
    ],
  )
  keep_busy i (some k) score z at b (m, (x, atx, freex, fit, eq, best)) = (
    m,
    (
      x,
      atx,
      freex,
      fit,
      eq,
      λ j w lt atj free f. elim (le_split j i lt) [
        | inl below ↦ best j w below atj free f
        | inr here ↦ cc
      ],
    ),
  )

  seen_held :
      (k : ℕ) (x : Zone)
      → get_elem? s.io_zones k ≡ some x
      → seen (some k) s.io_zones ≡ some (busied x)
  seen_held k x e = rw (e, seen)

  keep_pass :
      (i : ℕ) (k : Option ℕ) (score : ℕ) (z : Zone)
      → get_elem? s.io_zones i ≡ some z
      → c.better z (seen k s.io_zones) score ≡ none
      → Inv i k score
      → Inv (suc i) k score
  keep_pass i none score z at passed (m, none_fit) = (
    m,
    λ j w lt atj free. elim (le_split j i lt) [
      | inl below ↦ none_fit j w below atj free
      | inr here ↦ subst (λ y. ¬ Fit y) (cc) (o.passes z none score m passed)
    ],
  )
  keep_pass i (some k) score z at passed (m, (x, atx, freex, fit, eq, best)) = (
    m,
    (
      x,
      atx,
      freex,
      fit,
      eq,
      λ j w lt atj free f. elim (le_split j i lt) [
        | inl below ↦ best j w below atj free f
        | inr here ↦
            let same : z ≡ w = cc in
            o.passes w (some (busied x)) score (o.blind x ∙ sym eq, o.blind_fit x fit)
              (subst (λ y. c.better y (some (busied x)) score ≡ none) same
                (sym (ap (λ h. c.better z h score) (seen_held k x atx)) ∙ passed))
              f
      ],
    ),
  )

  -- The zone at `i` is at least as good as those below.
  best_below :
      (i : ℕ) (k : Option ℕ) (score score' : ℕ) (z : Zone)
      → c.better z (seen k s.io_zones) score ≡ some score'
      → Inv i k score
      → (j : ℕ) (w : Zone) → j < i
      → get_elem? s.io_zones j ≡ some w
      → w.busy ≡ false
      → Fit w
      → Le (v z) (v w)
  best_below i none score score' z taken (m, none_fit) j w lt atj free f =
      absurd (none_fit j w lt atj free f)
  best_below i (some k) score score' z taken (m, (x, atx, freex, fit, eq, best)) j w lt atj free f =
      let better =
        (o.takes z (some (busied x)) score score' (o.blind x ∙ sym eq, o.blind_fit x fit)
          (sym (ap (λ h. c.better z h score) (seen_held k x atx)) ∙ taken)).2 in
      o.le_trans (v z) score (v w) better (best j w lt atj free f)

  takes_at :
      (i : ℕ) (k : Option ℕ) (score score' : ℕ) (z : Zone)
      → c.better z (seen k s.io_zones) score ≡ some score'
      → Inv i k score
      → Fit z × (score' ≡ v z)
  takes_at i k score score' z taken (m, p) =
      let t = o.takes z (seen k s.io_zones) score score' m taken in (t.0, t.1)

  Inv-taken :
      (i score : ℕ) (z : Zone)
      → get_elem? s.io_zones i ≡ some z
      → z.busy ≡ false
      → Fit z
      → score ≡ v z
      → (n : ℕ)
      → ((j : ℕ) (w : Zone)
          → j < n
          → get_elem? s.io_zones j ≡ some w
          → w.busy ≡ false
          → Fit w
          → Le (v z) (v w))
      → Inv n (some i) score
  Inv-taken i score z at free fit eq n best = (
    subst (λ h. Matches Fit v start h score) (sym (seen_held i z at))
        (o.blind z ∙ sym eq, o.blind_fit z fit),
    (z, at, free, fit, eq, λ j w lt atj freej f. rw eq (best j w lt atj freej f)),
  )

  keep_take :
      (i : ℕ) (k : Option ℕ) (score score' : ℕ) (z : Zone)
      → get_elem? s.io_zones i ≡ some z
      → z.busy ≡ false
      → c.better z (seen k s.io_zones) score ≡ some score'
      → Inv i k score
      → Inv (suc i) (some i) score'
  keep_take i k score score' z at free taken p =
      let t = takes_at i k score score' z taken p in
      Inv-taken i score' z at free t.0 t.1 (suc i) λ j w lt atj freej f. elim (le_split j i lt) [
        | inl below ↦ best_below i k score score' z taken p j w below atj freej f
        | inr here ↦ subst (λ y. Le (v z) (v y)) (cc) (o.le_refl (v z))
      ]

  keep_stop :
      (i : ℕ) (k : Option ℕ) (score score' : ℕ) (z : Zone)
      → get_elem? s.io_zones i ≡ some z
      → z.busy ≡ false
      → c.better z (seen k s.io_zones) score ≡ some score'
      → c.last score' ≡ true
      → Inv i k score
      → Inv (length s.io_zones) (some i) score'
  keep_stop i k score score' z at free taken last p =
      let t = takes_at i k score score' z taken p in
      Inv-taken i score' z at free t.0 t.1 (length s.io_zones)
        λ j w lt atj freej f. subst (λ y. Le y (v w)) t.1 (o.stops score' last w)

  Inv-Keeps :
      Keeps c s.io_zones
        (λ n h. Inv n h.zone h.score)
        (λ h. Optimal Fit v Le s.io_zones (length s.io_zones) h.zone h.score)
  Inv-Keeps = record {
    busy = λ i h z at b p. keep_busy i h.zone h.score z at b p;
    pass = λ i h z at free w passed p. keep_pass i h.zone h.score z at passed p;
    take = λ i score h z at free w taken l p. keep_take i h.zone h.score score z at free taken p;
    stop =
        λ i score h z at free w taken l p. (keep_stop i h.zone h.score score z at free taken l p).1;
  }

  -- The choice ends with an optimal zone of those that are free and fit, if there is one.
  pub choose-Optimal :
      (h : Held) × (choose c start s ≡ chosen h (hold h.zone s))
      × WasFree s.io_zones (length s.io_zones) h.zone
      × Optimal Fit v Le s.io_zones (length s.io_zones) h.zone h.score
  choose-Optimal =
      choose_lem c s (λ n h. Inv n h.zone h.score)
        (λ h. Optimal Fit v Le s.io_zones (length s.io_zones) h.zone h.score) Inv-Keeps start
        (refl, λ j z lt at free f. absurd (elim lt [ ])) (λ h p. p.1)
