-- ===== src/Base/Loop.antt =====
-- Loops with early returns, as the range-based `for` loops of fs/zbd_zenfs.cc have them: over the
-- positions of a vector, which the body may change in place.
use Prim.Native.Nat.{ℕ, zero, suc, ◌+◌, ◌<◌, ◌≤◌}
use mathlib.Core.Path.{◌≡◌}
use native.Mathlib.Omega.{arith}

-- What a round of a loop does: go on with a state, or leave the loop with a result.
pub data Flow (S R : Type 0) : Type 0 where
  next : S → Flow S R
  leave : R → Flow S R

module _ {S R : Type 0} where
  -- `n` rounds are left; the next is at position `i`.
  unfoldable pub for_range : ℕ → ℕ → (ℕ → S → Flow S R) → S → Flow S R
  for_range zero i body s = next s
  for_range (suc n) i body s = elim (body i s) [
    | next s' ↦ for_range n (suc i) body s'
    | leave r ↦ leave r
  ]

  abbrev pub Holds : (S → Type 0) → (R → Type 0) → Flow S R → Type 0
  Holds P Q (next s) = P s
  Holds P Q (leave r) = Q r

  Holds-cases :
      (P P' : S → Type 0) (Q : R → Type 0) (f : Flow S R) (k : S → Flow S R)
      → ((s : S) → P s → Holds P' Q (k s))
      → Holds P Q f
      → Holds P' Q (elim f [ next s ↦ k s | leave r ↦ leave r ])
  Holds-cases P P' Q (next s) k rest h = rest s h
  Holds-cases P P' Q (leave r) k rest h = h

  -- The invariant rule: `P` at the position reached, `Q` of what the loop is left with.
  pub for_range-Holds :
      (P : ℕ → S → Type 0) (Q : R → Type 0) (body : ℕ → S → Flow S R) (n i e : ℕ)
      → i + n ≡ e
      → ((j : ℕ) (s : S) → i ≤ j → j < e → P j s → Holds (P (suc j)) Q (body j s))
      → (s : S) → P i s
      → Holds (P e) Q (for_range n i body s)
  unfolding for_range
  for_range-Holds P Q body zero i e eq keep s h = let same : i ≡ e = omega arith in rw (← same) h
  for_range-Holds P Q body (suc n) i e eq keep s h =
      Holds-cases (P (suc i)) (P e) Q (body i s) (for_range n (suc i) body)
        (for_range-Holds P Q body n (suc i) e (omega arith) (λ j t a b. keep j t (omega arith) b))
        (keep i s (omega arith) (omega arith) h)
