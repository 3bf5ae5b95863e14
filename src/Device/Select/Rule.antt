-- ===== src/Device/Select/Rule.antt =====
-- The rule for the loops that choose a zone (fs/zbd_zenfs.cc): an invariant on the position, the zone
-- held and its score.
use zenfs.Base.{
  ℕ, suc, ◌<◌, ◌≤◌, ◌≡◌, ◌≢◌, refl, sym, ap, ◌∙◌, inl, inr, true, false, Option, none, some, List,
  arith, get_elem?, set, length, set-get_elem?, get_elem?-set_self, get_elem?-set_ne, set-set,
  set_comm, lt-get_elem?, Bool-cases, Option-cases,
}
use zenfs.Base.Loop.{Flow, next, leave, Holds, for_range-Holds}
use zenfs.Zone.{Zone}
use zenfs.Device.State.{Zbd, io, put_zone}
use zenfs.Device.State.Busy.{acquire_at_busy, acquire_at_free, check_release_at_busy}
use zenfs.Device.Select.{
  Held, Choice, Chosen, chosen, failed, held_zone, choose_body, choose, take_over, pass_by,
  take_or_pass, ended,
}

abbrev pub busied : Zone → Zone
busied z = record z { busy = true }

abbrev pub hold_in : Option ℕ → List Zone → List Zone
hold_in none zs = zs
hold_in (some j) zs = elim (get_elem? zs j) [ none ↦ zs | some z ↦ set zs j (busied z) ]

-- The zone held, as the loop sees it.
abbrev pub seen : Option ℕ → List Zone → Option Zone
seen none zs = none
seen (some j) zs = elim (get_elem? zs j) [ none ↦ none | some z ↦ some (busied z) ]

module _ {D F : Type 0} where
  -- The state with the zone at a position acquired.
  abbrev pub hold : Option ℕ → Zbd D F → Zbd D F
  hold o s = record s { io_zones = hold_in o s.io_zones }

-- The zone held was free in `zs`, and lies below position `i`.
abbrev pub WasFree : List Zone → ℕ → Option ℕ → Type 0
WasFree zs i none = Unit {0}
WasFree zs i (some j) = (j < i) × ((z : Zone) × (get_elem? zs j ≡ some z) × (z.busy ≡ false))

module _ {D F : Type 0} (c : Choice D F) (s : Zbd D F) where
  abbrev zs₀ : List Zone
  zs₀ = s.io_zones

  abbrev Step :
      (P : ℕ → Held → Type 0) (Q : Held → Type 0) → ℕ → Flow (Held × Zbd D F) (Chosen D F) → Type 0
  Step P Q i (next (h, t)) = (t ≡ hold h.zone s) × WasFree s.io_zones i h.zone × P i h
  Step P Q i (leave (chosen h t)) = (t ≡ hold h.zone s) × WasFree s.io_zones i h.zone × Q h
  Step P Q i (leave (failed st t)) = ⊥

  take_none :
      (P : ℕ → Held → Type 0) (Q : Held → Type 0) (i score : ℕ) (z : Zone)
      → get_elem? s.io_zones i ≡ some z
      → z.busy ≡ false
      → (c.last score ≡ false → P (suc i) (record { zone = some i; score = score }))
      → (c.last score ≡ true → Q (record { zone = some i; score = score }))
      → Step P Q (suc i) (take_over c i score none (put_zone (io i) (busied z) s))
  take_none P Q i score z at free go stop = elim (Bool-cases (c.last score)) [
    | inl e ↦ rw e (ground (arith, at), (omega arith, (z, at, free)), stop e)
    | inr e ↦ rw e (ground (arith, at), (omega arith, (z, at, free)), go e)
  ]

WasFree-suc : (zs : List Zone) (i : ℕ) (o : Option ℕ) → WasFree zs i o → WasFree zs (suc i) o
WasFree-suc zs i none w = w
WasFree-suc zs i (some j) w = (omega arith, w.1)

freed : (z : Zone) → z.busy ≡ false → record z { busy = false } ≡ z
freed z h = λ i. record z { busy = sym h i }

get-hold_in_ne :
    (zs : List Zone) (i j : ℕ) → j ≢ i → get_elem? (hold_in (some j) zs) i ≡ get_elem? zs i
get-hold_in_ne zs i j ne = elim (Option-cases (get_elem? zs j)) [
  | inl e ↦ rw (e, hold_in)
  | inr (zj, e) ↦ rw (e, hold_in) (get_elem?-set_ne zs j i (busied zj) ne)
]

-- The zone held is released for another one.
swap_hold :
    (zs : List Zone) (i j : ℕ) (z zj : Zone)
    → j < i
    → get_elem? zs j ≡ some zj
    → zj.busy ≡ false
    → (get_elem? (set (set zs j (busied zj)) i (busied z)) j ≡ some (busied zj))
      × (set (set (set zs j (busied zj)) i (busied z)) j (record zj { busy = false })
          ≡ set zs i (busied z))
swap_hold zs i j z zj lt at free = (
  get_elem?-set_ne (set zs j (busied zj)) i j (busied z) (λ e. omega arith)
      ∙ get_elem?-set_self zs j zj (busied zj) at,
  ap (λ v. set (set (set zs j (busied zj)) i (busied z)) j v) (freed zj free)
      ∙ set_comm (set zs j (busied zj)) i j (busied z) zj (λ e. omega arith)
      ∙ ap (λ l. set l i (busied z)) (set-set zs j (busied zj) zj ∙ set-get_elem? zs j zj at),
)

module _ {D F : Type 0} (c : Choice D F) (s : Zbd D F) where
  take_some :
      (P : ℕ → Held → Type 0) (Q : Held → Type 0) (i j score : ℕ) (z zj : Zone)
      → j < i
      → get_elem? s.io_zones j ≡ some zj
      → zj.busy ≡ false
      → get_elem? s.io_zones i ≡ some z
      → z.busy ≡ false
      → (c.last score ≡ false → P (suc i) (record { zone = some i; score = score }))
      → (c.last score ≡ true → Q (record { zone = some i; score = score }))
      → Step c s P Q (suc i) (
          take_over c i score
            (some j)
            (put_zone (io i) (busied z) (record s { io_zones = set s.io_zones j (busied zj) })))
  take_some P Q i j score z zj lt atj freej at free go stop =
      let t = put_zone (io i) (busied z) (record s { io_zones = set s.io_zones j (busied zj) }) in
      let sw = swap_hold s.io_zones i j z zj lt atj freej in
      rw (check_release_at_busy t j (busied zj) sw.0 refl, sw.1)
        (elim (Bool-cases (c.last score)) [
          | inl e ↦ rw e (ground (arith, at), (omega arith, (z, at, free)), stop e)
          | inr e ↦ rw e (ground (arith, at), (omega arith, (z, at, free)), go e)
        ])

  passed :
      (P : ℕ → Held → Type 0) (Q : Held → Type 0) (i : ℕ) (h : Held) (z : Zone)
      → get_elem? (hold h.zone s).io_zones i ≡ some z
      → z.busy ≡ false
      → WasFree s.io_zones i h.zone
      → P (suc i) h
      → Step c s P Q (suc i) (pass_by c i h (put_zone (io i) (busied z) (hold h.zone s)))
  passed P Q i h z at free w go =
      let t = hold h.zone s in
      let back =
        set-set t.io_zones i (busied z) (record z { busy = false })
        ∙ ap (set t.io_zones i) (freed z free)
        ∙ set-get_elem? t.io_zones i z at in
      rw
        (
          check_release_at_busy (put_zone (io i) (busied z) t) i (busied z)
              (get_elem?-set_self t.io_zones i z (busied z) at) refl,
          back,
        )
        (refl, WasFree-suc s.io_zones i h.zone w, go)

-- What an invariant `P` has to satisfy at each zone, and `R` where the loop stops early.
pub record Keeps {D F : Type 0} (c : Choice D F) (zs : List Zone) (P : ℕ → Held → Type 0)
    (R : Held → Type 0) : Type 0 where
  pub busy :
      (i : ℕ) (h : Held) (z : Zone) → get_elem? zs i ≡ some z → z.busy ≡ true → P i h → P (suc i) h
  pub pass :
      (i : ℕ) (h : Held) (z : Zone)
      → get_elem? zs i ≡ some z
      → z.busy ≡ false
      → WasFree zs i h.zone
      → c.better z (seen h.zone zs) h.score ≡ none
      → P i h
      → P (suc i) h
  pub take :
      (i score : ℕ) (h : Held) (z : Zone)
      → get_elem? zs i ≡ some z
      → z.busy ≡ false
      → WasFree zs i h.zone
      → c.better z (seen h.zone zs) h.score ≡ some score
      → c.last score ≡ false
      → P i h
      → P (suc i) (record { zone = some i; score = score })
  pub stop :
      (i score : ℕ) (h : Held) (z : Zone)
      → get_elem? zs i ≡ some z
      → z.busy ≡ false
      → WasFree zs i h.zone
      → c.better z (seen h.zone zs) h.score ≡ some score
      → c.last score ≡ true
      → P i h
      → R (record { zone = some i; score = score })

get-hold :
    (zs : List Zone) (i : ℕ) (o : Option ℕ)
    → WasFree zs i o
    → get_elem? (hold_in o zs) i ≡ get_elem? zs i
get-hold zs i none w = refl
get-hold zs i (some j) w = get-hold_in_ne zs i j (λ e. omega arith)

get-held :
    (zs : List Zone) (i j : ℕ) (z zj : Zone)
    → j < i
    → get_elem? zs j ≡ some zj
    → get_elem? (set (set zs j (busied zj)) i (busied z)) j ≡ some (busied zj)
get-held zs i j z zj lt at =
    get_elem?-set_ne (set zs j (busied zj)) i j (busied z) (λ e. omega arith)
    ∙ get_elem?-set_self zs j zj (busied zj) at

module _ {D F : Type 0} (c : Choice D F) (s : Zbd D F) (P : ℕ → Held → Type 0) (R : Held → Type 0)
    (k : Keeps c s.io_zones P R) where
  taken :
      (i score : ℕ) (z : Zone) (o : Option ℕ)
      → get_elem? s.io_zones i ≡ some z
      → z.busy ≡ false
      → WasFree s.io_zones i o
      → (c.last score ≡ false → P (suc i) (record { zone = some i; score = score }))
      → (c.last score ≡ true → R (record { zone = some i; score = score }))
      → Step c s P R (suc i) (take_over c i score o (put_zone (io i) (busied z) (hold o s)))
  taken i score z none at free w go stop = take_none c s P R i score z at free go stop
  taken i score z (some j) at free w go stop =
      let (lt, found) = w in
      let (zj, atj, freej) = found in
      rw (atj, hold_in) (take_some c s P R i j score z zj lt atj freej at free go stop)

  -- The zone at `i` is acquired, and is taken or passed by.
  body_free :
      (i : ℕ) (h : Held) (z : Zone)
      → get_elem? s.io_zones i ≡ some z
      → z.busy ≡ false
      → WasFree s.io_zones i h.zone
      → P i h
      → Step c s P R (suc i) (
          take_or_pass c i h
            (put_zone (io i) (busied z) (hold h.zone s))
            (c.better z (seen h.zone s.io_zones) h.score))
  body_free i h z at free w p = elim (Option-cases (c.better z (seen h.zone s.io_zones) h.score)) [
    | inl e ↦ rw e (
        passed c s P R i h z (get-hold s.io_zones i h.zone w ∙ at) free w
          (k.pass i h z at free w e p))
    | inr (score, e) ↦ rw e (
        taken i score z h.zone at free w (λ l. k.take i score h z at free w e l p)
          (λ l. k.stop i score h z at free w e l p))
  ]

  held_zone-seen :
      (i : ℕ) (z : Zone) (o : Option ℕ) (score : ℕ)
      → WasFree s.io_zones i o
      → held_zone (record { zone = o; score = score }) (put_zone (io i) (busied z) (hold o s))
        ≡ seen o s.io_zones
  held_zone-seen i z none score w = refl
  held_zone-seen i z (some j) score w =
      let (lt, found) = w in
      let (zj, atj, freej) = found in rw (atj, hold_in, seen) (get-held s.io_zones i j z zj lt atj)

  body-Step :
      (i : ℕ) (h : Held) (z : Zone)
      → get_elem? s.io_zones i ≡ some z
      → WasFree s.io_zones i h.zone
      → P i h
      → Step c s P R (suc i) (choose_body c i (h, hold h.zone s))
  unfolding choose_body
  body-Step i h z at w p =
      let here = get-hold s.io_zones i h.zone w ∙ at in
      elim (Bool-cases z.busy) [
        | inl b ↦
            rw (here, choose_body, acquire_at_busy (hold h.zone s) i z here b)
              (refl, WasFree-suc s.io_zones i h.zone w, k.busy i h z at b p)
        | inr f ↦
            rw
              (
                here,
                choose_body,
                acquire_at_free (hold h.zone s) i z here f,
                held_zone-seen i z h.zone h.score w,
              )
              (body_free i h z at f w p)
      ]

WasFree-mono : (zs : List Zone) (i n : ℕ) (o : Option ℕ) → i ≤ n → WasFree zs i o → WasFree zs n o
WasFree-mono zs i n none le w = w
WasFree-mono zs i n (some j) le w = (omega arith, w.1)

module _ {D F : Type 0} (c : Choice D F) (s : Zbd D F) (P : ℕ → Held → Type 0) (R : Held → Type 0)
    (k : Keeps c s.io_zones P R) where
  abbrev Inv : ℕ → Held × Zbd D F → Type 0
  Inv i (h, t) = (t ≡ hold h.zone s) × WasFree s.io_zones i h.zone × P i h

  abbrev End : ℕ → (Held → Type 0) → Chosen D F → Type 0
  End n Q (chosen h t) = (t ≡ hold h.zone s) × WasFree s.io_zones n h.zone × Q h
  End n Q (failed st t) = ⊥

  Step-Holds :
      (i n : ℕ) (f : Flow (Held × Zbd D F) (Chosen D F))
      → i ≤ n
      → Step c s P R i f
      → Holds (Inv i) (End n R) f
  Step-Holds i n (next (h, t)) le st = st
  Step-Holds i n (leave (chosen h t)) le st =
      (st.0, WasFree-mono s.io_zones i n h.zone le st.1, st.2)
  Step-Holds i n (leave (failed x t)) le st = absurd st

  round :
      (j n : ℕ) (x : Held × Zbd D F)
      → n ≡ length s.io_zones
      → j < n
      → Inv j x
      → Holds (Inv (suc j)) (End n R) (choose_body c j x)
  round j n (h, t) e lt (same, w, p) =
      let (z, at) = lt-get_elem? s.io_zones j (omega arith) in
      Step-Holds (suc j) n (choose_body c j (h, t)) lt (rw same (body-Step c s P R k j h z at w p))

  End-chosen :
      (n : ℕ) (r : Chosen D F)
      → End n R r
      → (h : Held) × (r ≡ chosen h (hold h.zone s)) × WasFree s.io_zones n h.zone × R h
  End-chosen n (chosen h t) (same, w, p) = (h, ap (chosen h) same, w, p)
  End-chosen n (failed st t) e = absurd e

  ended-End :
      (n : ℕ) (f : Flow (Held × Zbd D F) (Chosen D F))
      → ((h : Held) → P n h → R h)
      → Holds (Inv n) (End n R) f
      → End n R (ended f)
  ended-End n (next (h, t)) last (same, w, p) = (same, w, last h p)
  ended-End n (leave r) last e = e

  -- The loop cannot fail. It ends with the device as it was, but for the zone chosen, which was free
  -- and is now acquired; and what the invariant gives holds of the choice.
  pub choose_lem :
      (score : ℕ)
      → P 0 (record { zone = none; score = score })
      → ((h : Held) → P (length s.io_zones) h → R h)
      → (h : Held) × (choose c score s ≡ chosen h (hold h.zone s))
        × WasFree s.io_zones (length s.io_zones) h.zone
        × R h
  unfolding choose
  choose_lem score start last =
      let n : ℕ = length s.io_zones in
      End-chosen n _ (
        ended-End n _ last (
          for_range-Holds Inv (End n R) (choose_body c) n 0 n (omega arith)
            (λ j x a b. round j n x refl b) (record { zone = none; score = score }, s)
            (refl, tt, start)))
