-- ===== src/File/Read/Contents.antt =====
-- The bytes of a file on a device (fs/io_zenfs.cc).
use zenfs.Base.{
  ℕ, zero, suc, ◌+◌, ◌-◌, ◌≤◌, ◌<◌, ◌≡◌, ◌%◌, ltb, refl, sym, ap, ◌∙◌, ◌⊎◌, inl, inr, Bool, true,
  false, none, some, if◌then◌else◌, List, [], ◌∷◌, ◌++◌, arith, take, drop, length, leb, ◌==◌,
  Bool-cases,
}
use zenfs.Base.Words.{u32, sub32}
use zenfs.Platform.{Platform, bytes}
use zenfs.Device.Io.{read_zbd, read_loop, int_min}
use zenfs.File.{ZoneExtent}
use zenfs.File.Extents.{total}
use zenfs.File.Read.{counted}

-- The bytes of a device with the content `m`, from an offset on.
abbrev pub bytes_at : (ℕ → ℕ) → ℕ → ℕ → List ℕ
bytes_at m offset zero = []
bytes_at m offset (suc n) = m offset ∷ bytes_at m (suc offset) n

abbrev pub contents : (ℕ → ℕ) → List ZoneExtent → List ℕ
contents m [] = []
contents m (e ∷ es) = bytes_at m e.start e.length ++ contents m es

pub length-bytes_at : (m : ℕ → ℕ) (offset n : ℕ) → length (bytes_at m offset n) ≡ n
length-bytes_at m offset zero = refl
length-bytes_at m offset (suc n) = ap suc (length-bytes_at m (suc offset) n)

pub take-bytes_at :
    (m : ℕ → ℕ) (offset n k : ℕ) → k ≤ n → take k (bytes_at m offset n) ≡ bytes_at m offset k
take-bytes_at m offset n zero le = refl
take-bytes_at m offset zero (suc k) le = absurd (omega arith)
take-bytes_at m offset (suc n) (suc k) le =
    ap (◌∷◌ (m offset)) (take-bytes_at m (suc offset) n k (omega arith))

-- The piece of the first extent, and of those behind it.
take-append-short : (k : ℕ) (l r : List ℕ) → k ≤ length l → take k (l ++ r) ≡ take k l
take-append-short zero l r le = refl
take-append-short (suc k) [] r le = absurd (omega arith)
take-append-short (suc k) (x ∷ l) r le = ap (◌∷◌ x) (take-append-short k l r (omega arith))

drop-append-long : (k : ℕ) (l r : List ℕ) → length l ≤ k → drop k (l ++ r) ≡ drop (k - length l) r
drop-append-long k [] r le = ap (λ j. drop j r) (omega arith)
drop-append-long zero (x ∷ l) r le = absurd (omega arith)
drop-append-long (suc k) (x ∷ l) r le =
    drop-append-long k l r (omega arith) ∙ ap (λ j. drop j r) (omega arith)

-- Inside one run of bytes.
window-run :
    (m : ℕ → ℕ) (offset n : ℕ) (r : List ℕ) (o k : ℕ)
    → o + k ≤ n
    → take k (drop o (bytes_at m offset n ++ r)) ≡ bytes_at m (offset + o) k
window-run m offset n r zero k le =
    take-append-short k (bytes_at m offset n) r (omega (arith, length-bytes_at m offset n))
    ∙ take-bytes_at m offset n k (omega arith)
    ∙ ap (λ j. bytes_at m j k) (omega arith)
window-run m offset zero r (suc o) k le = absurd (omega arith)
window-run m offset (suc n) r (suc o) k le =
    window-run m (suc offset) n r o k (omega arith) ∙ ap (λ j. bytes_at m j k) (omega arith)

-- The bytes of a file at a position that lies in one of its extents.
pub window-extent :
    (m : ℕ → ℕ) (before : List ZoneExtent) (e : ZoneExtent) (after : List ZoneExtent) (o k : ℕ)
    → total before ≤ o
    → o + k ≤ total before + e.length
    → take k (drop o (contents m (before ++ e ∷ after)))
      ≡ bytes_at m (e.start + (o - total before)) k
window-extent m [] e after o k le inside =
    window-run m e.start e.length (contents m after) o k (omega arith)
    ∙ ap (λ j. bytes_at m (e.start + j) k) (omega arith)
window-extent m (x ∷ before) e after o k le inside =
    let n = length-bytes_at m x.start x.length in
    ap (take k) (
      drop-append-long o (bytes_at m x.start x.length) (contents m (before ++ e ∷ after))
        (omega (arith, n))
      ∙ ap (λ j. drop j (contents m (before ++ e ∷ after))) (omega (arith, n)))
    ∙ window-extent m before e after (o - x.length) k (omega arith) (omega arith)
    ∙ ap (λ j. bytes_at m (e.start + j) k) (omega arith)

take-add : (a b : ℕ) (l : List ℕ) → take a l ++ take b (drop a l) ≡ take (a + b) l
take-add zero b l = ap (λ n. take n l) (omega arith)
take-add (suc a) b [] = take_nil b ∙ sym (take_nil (suc a + b))
  where
    take_nil : (n : ℕ) → take {A = ℕ} n [] ≡ []
    take_nil zero = refl
    take_nil (suc n) = refl
take-add (suc a) b (x ∷ l) =
    let up : suc (a + b) ≡ suc a + b = omega arith in
    ap (◌∷◌ x) (take-add a b l) ∙ ap (λ n. take n (x ∷ l)) up

drop-add : (o a : ℕ) (l : List ℕ) → drop a (drop o l) ≡ drop (o + a) l
drop-add zero a l = ap (λ n. drop n l) (omega arith)
drop-add (suc o) a [] = drop_nil a ∙ sym (drop_nil (suc o + a))
  where
    drop_nil : (n : ℕ) → drop {A = ℕ} n [] ≡ []
    drop_nil zero = refl
    drop_nil (suc n) = refl
drop-add (suc o) a (x ∷ l) =
    let up : suc (o + a) ≡ suc o + a = omega arith in drop-add o a l ∙ ap (λ n. drop n (x ∷ l)) up

-- Taking a piece and what follows it.
pub take-split :
    (a b o : ℕ) (l : List ℕ)
    → take a (drop o l) ++ take b (drop (o + a) l) ≡ take (a + b) (drop o l)
take-split a b o l =
    ap (λ r. take a (drop o l) ++ take b r) (sym (drop-add o a l)) ∙ take-add a b (drop o l)

abbrev first_length : List ZoneExtent → ℕ
first_length [] = 0
first_length (x ∷ xs) = x.length

abbrev others : List ZoneExtent → List ZoneExtent
others [] = []
others (x ∷ xs) = xs

-- Two ways to cut a list of extents: the first extent behind the one cut lies before the other, or not.
pub cuts :
    (a b a' : List ZoneExtent) (e : ZoneExtent) (b' : List ZoneExtent)
    → a ++ b ≡ a' ++ e ∷ b'
    → (total a' + e.length ≤ total a) ⊎ (total a ≤ total a')
cuts [] b a' e b' eq = inr (omega arith)
cuts (x ∷ a) b [] e b' eq =
    let same : x.length ≡ e.length = ap first_length eq in inl (omega (arith, same))
cuts (x ∷ a) b (y ∷ a') e b' eq =
    let same : x.length ≡ y.length = ap first_length eq in
    elim (cuts a b a' e b' (ap others eq)) [
      | inl le ↦ inl (omega (arith, same))
      | inr le ↦ inr (omega (arith, same))
    ]

-- All extents end at a limit or below.
abbrev pub AllBelow : ℕ → List ZoneExtent → Type 0
AllBelow limit [] = Unit
AllBelow limit (e ∷ es) = (e.start + e.length ≤ limit) × AllBelow limit es

pub below-Located :
    (limit : ℕ) (before : List ZoneExtent) (e : ZoneExtent) (after : List ZoneExtent)
    → AllBelow limit (before ++ e ∷ after)
    → e.start + e.length ≤ limit
below-Located limit [] e after (le, all) = le
below-Located limit (x ∷ before) e after (le, all) = below-Located limit before e after all

pub total-append_one :
    (b : List ZoneExtent) (e : ZoneExtent) → total (b ++ e ∷ []) ≡ total b + e.length
total-append_one [] e = omega arith
total-append_one (x ∷ b) e = omega (arith, total-append_one b e)

-- All extents start at a block boundary.
abbrev pub AllStart : ℕ → List ZoneExtent → Type 0
AllStart bs [] = Unit
AllStart bs (e ∷ es) = (e.start % bs ≡ 0) × AllStart bs es

pub start-Located :
    (bs : ℕ) (before : List ZoneExtent) (e : ZoneExtent) (after : List ZoneExtent)
    → AllStart bs (before ++ e ∷ after)
    → e.start % bs ≡ 0
start-Located bs [] e after (here, all) = here
start-Located bs (x ∷ before) e after (here, all) = start-Located bs before e after all

-- A read of the device gives all bytes that are asked for, and changes nothing; a direct read does so
-- for whole blocks at a block boundary. Counts of bytes are those of an `int`.
pub record ReadsWhole {D F : Type 0} (p : Platform D F) (m : ℕ → ℕ) (dev : D) : Type 0 where
  pub reads :
      (offset n : ℕ) (direct : Bool)
      → 0 < n
      → n < int_min
      → (direct ≡ true → (offset % p.block_size ≡ 0) × (n % p.block_size ≡ 0))
      → p.read dev offset n direct ≡ (bytes (bytes_at m offset n), dev)

module _ {D F : Type 0} (p : Platform D F) (m : ℕ → ℕ) (dev : D) (whole : ReadsWhole p m dev) where
  read_loop-bytes_at :
      (fuel offset n : ℕ) (direct : Bool)
      → 0 < n
      → n < int_min
      → (direct ≡ true → (offset % p.block_size ≡ 0) × (n % p.block_size ≡ 0))
      → read_loop p (suc (suc fuel)) n offset direct [] dev ≡ some (some (bytes_at m offset n), dev)
  unfolding read_loop
  read_loop-bytes_at fuel offset n direct positive word whole_blocks =
      let q = length-bytes_at m offset n in
      let nonzero : (n == 0) ≡ false = ground arith in
      let done : (sub32 n (length (bytes_at m offset n)) == 0) ≡ true = ground (arith, q) in
      let got : (length (bytes_at m offset n) == 0) ≡ false = ground (arith, q) in
      let back : ltb (length (bytes_at m offset n) % u32) int_min ≡ true = ground (arith, q) in
      let reply = ap (λ r. r.0) (whole.reads offset n direct positive word whole_blocks) in
      let same = ap (λ r. r.1) (whole.reads offset n direct positive word whole_blocks) in
      rw (nonzero, reply, same, got, done, back) refl

  pub read_zbd-bytes_at :
      (fuel offset n : ℕ) (direct : Bool)
      → 0 < n
      → n < int_min
      → (direct ≡ true → (offset % p.block_size ≡ 0) × (n % p.block_size ≡ 0))
      → read_zbd p (suc (suc fuel)) offset n direct dev ≡ some (some (bytes_at m offset n), dev)
  unfolding read_zbd
  read_zbd-bytes_at fuel offset n direct positive word whole_blocks =
      let narrow : n % u32 ≡ n = omega arith in
      let nonzero : (n == 0) ≡ false = ground arith in
      ap
        (λ k.
          if k == 0 then some (none, dev) else read_loop p (suc (suc fuel)) k offset direct [] dev)
        narrow
      ∙ ap
          (λ b. if b then some (none, dev) else read_loop p (suc (suc fuel)) n offset direct [] dev)
          nonzero
      ∙ read_loop-bytes_at fuel offset n direct positive word whole_blocks

  pub counted-bytes_at :
      (offset n k : ℕ) → k ≤ n → counted p k (bytes_at m offset n) ≡ bytes_at m offset k
  counted-bytes_at offset n k le = elim (Bool-cases (leb (length (bytes_at m offset n)) k)) [
    | inl q ↦
        let same : n ≡ k = (let r = length-bytes_at m offset n in ground (arith, r)) in
        rw q (ap (bytes_at m offset) same)
    | inr q ↦ rw q (take-bytes_at m offset n k le)
  ]
