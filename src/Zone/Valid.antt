-- ===== src/Zone/Valid.antt =====
-- The invariant of a zone, and `Zone::Append` (fs/zbd_zenfs.cc).
use zenfs.Base.{
  ℕ, zero, suc, ◌+◌, ◌-◌, ◌%◌, ◌≤◌, ◌<◌, ◌≡◌, refl, ap, ◌∙◌, ◌⊎◌, inl, inr, none, some, List, arith,
  subst, drop, length, length-drop, ltb, ◌==◌, Bool-cases, Option-cases,
}
use zenfs.Base.Words.{u64, add64, sub64}
use zenfs.Status.{Status, ok, no_space, io_error}
use zenfs.Platform.{Platform, Backend}
use zenfs.Zone.{Zone, Appended, append_loop, append}

-- A zone of size `size`: the write pointer lies in it, the room left lies behind the write pointer
-- and below the end of the zone, and the live data is not more than what was written.
pub record IsValid (size : ℕ) (z : Zone) : Type 0 where
  pub fits : z.start + size < u64
  pub above : z.start ≤ z.wp
  pub room : z.wp + z.capacity ≤ z.start + size
  pub capacity_le : z.capacity ≤ z.max_capacity
  pub max_le : z.max_capacity ≤ size
  pub live : z.start + z.used_capacity ≤ z.wp

-- The write pointer moves on, and the room shrinks.
abbrev pub advance : ℕ → Zone → Zone
advance k z = record z { wp = z.wp + k; capacity = z.capacity - k }

pub advance-IsValid :
    (size k : ℕ) (z : Zone) → IsValid size z → k ≤ z.capacity → IsValid size (advance k z)
advance-IsValid size k z v h = record {
  fits = v.fits;
  above = omega arith;
  room = omega arith;
  capacity_le = omega arith;
  max_le = v.max_le;
  live = omega arith;
}

advance-advance : (n k : ℕ) (z : Zone) → advance k (advance n z) ≡ advance (n + k) z
advance-advance n k z = ground arith

stay : (z : Zone) → z ≡ advance 0 z
stay z = ground arith

-- A write takes at least one byte, and at most what it is offered.
abbrev pub WritesSome : {D : Type 0} → Backend D → Type 0
WritesSome {D} b =
    (dev dev' : D) (buf : List ℕ) (pos n : ℕ)
    → 0 < length buf
    → b.write dev buf pos ≡ (some n, dev')
    → (0 < n) × (n ≤ length buf)

-- What the writes of a buffer come to: `k` bytes of it were taken, one write behind the other, until
-- none was left or a write failed.
pub data Took {D : Type 0} (b : Backend D) : D → List ℕ → ℕ → ℕ → Status → D → Type 0 where
  all_taken : {dev : D} {buf : List ℕ} {pos : ℕ} → length buf ≡ 0 → Took b dev buf pos 0 ok dev
  failed :
      {dev dev' : D} {buf : List ℕ} {pos : ℕ}
      → 0 < length buf
      → b.write dev buf pos ≡ (none, dev')
      → Took b dev buf pos 0 io_error dev'
  took :
      {dev dev' end_ : D} {buf : List ℕ} {pos n k : ℕ} {st : Status}
      → 0 < length buf
      → b.write dev buf pos ≡ (some n, dev')
      → Took b dev' (drop n buf) (pos + n) k st end_
      → Took b dev buf pos (n + k) st end_

module _ {D F : Type 0} (p : Platform D F) where
  -- `n` bytes were offered, with `written` bytes counted before.
  abbrev pub Outcome : D → List ℕ → ℕ → Zone → ℕ → Appended p → Type 0
  Outcome dev buf n z written a =
      (k : ℕ) × (k ≤ n)
      × Took p.backend dev buf z.wp k a.status a.dev
      × (a.zone ≡ advance k z)
      × (a.written ≡ (written + k) % u64)
      × (((a.status ≡ ok) × (k ≡ n)) ⊎ ((a.status ≡ io_error) × (k < n)))

module _ {D F : Type 0} (p : Platform D F) (w : WritesSome p.backend) (size : ℕ) where
  step :
      (n : ℕ) (z : Zone)
      → IsValid size z
      → n ≤ z.capacity
      → record z { wp = add64 z.wp n; capacity = sub64 z.capacity n } ≡ advance n z
  step n z v h = ground arith

  abbrev Wrote : ℕ → List ℕ → Zone → D → ℕ → Type 0
  Wrote fuel buf z dev written =
      (a : Appended p) × (append_loop p fuel buf z dev written ≡ some a)
      × Outcome p dev buf (length buf) z written a

  -- The rest of the buffer was appended after its first `n` bytes.
  wrote_more :
      (n total written : ℕ) (z : Zone) (a : Appended p) (dev dev' : D) (buf : List ℕ)
      → n ≤ total
      → written < u64
      → 0 < length buf
      → p.write dev buf z.wp ≡ (some n, dev')
      → Outcome p dev' (drop n buf) (total - n) (advance n z) (add64 written n) a
      → Outcome p dev buf total z written a
  wrote_more n total written z a dev dev' buf h l more one (k, le, trace, at, count, end) = (
    n + k,
    omega arith,
    took more one trace,
    at ∙ advance-advance n k z,
    count ∙ omega arith,
    elim end [ inl (s, e) ↦ inl (s, omega arith) | inr (s, e) ↦ inr (s, omega arith) ],
  )

  append_loop-Outcome :
      (fuel : ℕ) (buf : List ℕ) (z : Zone) (dev : D) (written : ℕ)
      → length buf < fuel
      → IsValid size z
      → length buf ≤ z.capacity
      → written < u64
      → Wrote fuel buf z dev written
  unfolding append_loop
  append_loop-Outcome zero buf z dev written h v c l = absurd (omega arith)
  append_loop-Outcome (suc fuel) buf z dev written h v c l = elim (Bool-cases (length buf == 0)) [
    | inl e ↦ rw e (
      _,
      refl,
      (0, omega arith, all_taken (ground arith), stay z, omega arith, inl (refl, ground arith)),
    )
    | inr e ↦
        let out = p.write dev buf z.wp in
        rw e (elim (Option-cases out.0) [
          | inl f ↦ rw f (
            _,
            refl,
            (
              0,
              omega arith,
              failed (ground arith) (ap (λ o. (o, out.1)) f),
              stay z,
              omega arith,
              inr (refl, ground arith),
            ),
          )
          | inr (n, f) ↦
              let (some_n, le) = w dev out.1 buf z.wp n (ground arith) (ap (λ o. (o, out.1)) f) in
              let dropped = length-drop n buf in
              let (a, eq, o) =
                append_loop-Outcome fuel (drop n buf) (advance n z) out.1 (add64 written n)
                  (omega arith) (advance-IsValid size n z v (omega arith)) (omega arith)
                  (omega arith) in
              rw f (
                a,
                rw (step n z v (omega arith)) eq,
                wrote_more n (length buf) written z a dev out.1 buf le l (ground arith)
                    (ap (λ o. (o, out.1)) f)
                    (subst (λ m. Outcome p out.1 (drop n buf) m (advance n z) (add64 written n) a)
                      dropped o),
              )
        ])
  ]

  -- `Append` returns, given a device that takes at least one and no more than the offered bytes of
  -- each write, or reports an error. It refuses a buffer that does not fit and then changes nothing;
  -- else it moves the write pointer, the room left and the count of bytes written on by the number of
  -- bytes that the device took, in writes of the rest of the buffer at the write pointer, until none is
  -- left or a write fails. That number is the buffer's length if it returns ok, and less if it returns
  -- an IO error. In either case the zone stays well formed.
  pub append-IsValid :
      (buf : List ℕ) (z : Zone) (dev : D) (written : ℕ)
      → IsValid size z
      → written < u64
      → (a : Appended p) × (append p buf z dev written ≡ some a)
        × IsValid size a.zone
        × (((a.status ≡ no_space)
              × (z.capacity < length buf)
              × (a.zone ≡ z)
              × (a.dev ≡ dev)
              × (a.written ≡ written))
            ⊎ ((length buf ≤ z.capacity) × Outcome p dev buf (length buf) z written a))
  unfolding append
  append-IsValid buf z dev written v l = elim (Bool-cases (ltb z.capacity (length buf))) [
    | inl e ↦ rw e (_, refl, v, inl (refl, ground arith, refl, refl, refl))
    | inr e ↦
        let fits : length buf ≤ z.capacity = ground arith in
        let (a, eq, o) =
          append_loop-Outcome (suc (length buf)) buf z dev written (omega arith) v fits l in
        rw e (a, eq, rw o.3 (advance-IsValid size o.0 z v (omega (arith, o.1))), inr (fits, o))
  ]
