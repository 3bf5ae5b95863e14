-- ===== src/File/Read/Asked.antt =====
-- What a round of `PositionedRead` (fs/io_zenfs.cc) asks the device for.
use zenfs.Base.{
  ℕ, ◌+◌, ◌-◌, ◌≤◌, ◌<◌, ◌≡◌, ◌%◌, ◌==◌, refl, sym, ap, ◌∙◌, ◌⊎◌, inl, inr, Bool, true, false,
  arith, ltb, Bool-cases,
}
use native.Mathlib.Nat.{mod-lt, mod-add-mod, mod_self}
use zenfs.Base.Words.{u64, add64, sub64}
use zenfs.Platform.{Platform}
use zenfs.File.Write.{pad_size}
use zenfs.File.Read.{pread_size, aligned_size}

-- What a round asks for, for a position in an extent.
pub record Asked (left r_off extent_end n : ℕ) : Type 0 where
  pub some_bytes : 0 < n
  pub no_more : n ≤ left
  pub in_extent : r_off + n ≤ extent_end
  pub ends : (n ≡ left) ⊎ (r_off + n ≡ extent_end)

module _ {D F : Type 0} (p : Platform D F) where
  pub pread_size-Asked :
      (left r_off extent_end : ℕ)
      → 0 < left
      → r_off < extent_end
      → left + extent_end < u64
      → Asked left r_off extent_end (pread_size p left r_off extent_end)
  unfolding pread_size
  pread_size-Asked left r_off extent_end some_left before_end small =
      let sum : add64 left r_off ≡ left + r_off = omega arith in
      let gap : sub64 extent_end r_off ≡ extent_end - r_off = omega arith in
      elim (Bool-cases (ltb extent_end (add64 left r_off))) [
        | inl q ↦
            let over : extent_end < left + r_off = ground (arith, sum) in
            rw (pread_size, q, gap)
              (record {
                some_bytes = omega arith;
                no_more = omega arith;
                in_extent = omega arith;
                ends = inr (omega arith);
              })
        | inr q ↦
            let under : left + r_off ≤ extent_end = ground (arith, sum) in
            rw (pread_size, q)
              (record {
                some_bytes = some_left;
                no_more = omega arith;
                in_extent = omega arith;
                ends = inl refl;
              })
      ]

  -- A direct read asks for whole blocks.
  pub aligned_size-Whole :
      (direct : Bool) (n : ℕ)
      → 0 < p.block_size
      → n + p.block_size < u64
      → (n ≤ aligned_size p direct n)
        × (aligned_size p direct n ≤ n + p.block_size)
        × (direct ≡ true → aligned_size p direct n % p.block_size ≡ 0)
  unfolding aligned_size pad_size
  aligned_size-Whole false n positive small = (omega arith, omega arith, λ d. absurd (cc))
  aligned_size-Whole true n positive small =
      let bs = p.block_size in
      let below : n % bs < bs = mod-lt n positive in
      elim (Bool-cases (n % bs == 0)) [
        | inl q ↦
            let same : add64 n 0 ≡ n = omega arith in
            rw (q, same) (omega arith, omega arith, λ d. ground arith)
        | inr q ↦
            let pad = bs - n % bs in
            let same : add64 n pad ≡ n + pad = omega (arith, below) in
            let full : n % bs + pad ≡ bs = omega (arith, below) in
            rw (q, same)
              (
                omega arith,
                omega arith,
                λ d. sym (mod-add-mod n bs pad) ∙ ap (λ x. x % bs) full ∙ mod_self bs,
              )
      ]
