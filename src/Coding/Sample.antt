-- ===== src/Coding/Sample.antt =====
-- A coding with the laws of `CodingLaws`: little-endian numbers, and a sum as the checksum.
use zenfs.Base.{
  ℕ, ◌+◌, ◌*◌, ◌/◌, ◌%◌, ◌<◌, ◌≡◌, refl, ap, Option, none, some, List, [], ◌∷◌, ◌++◌, arith, take,
  drop, length, take_length-append, drop_length-append,
}
use zenfs.Base.Words.{u32, u64}
use zenfs.Coding.{Coding, CodingLaws}

-- The lowest four bytes.
abbrev put32 : ℕ → List ℕ
put32 n = n % 256 ∷ n / 256 % 256 ∷ n / 65536 % 256 ∷ n / 16777216 % 256 ∷ []

abbrev get32 : List ℕ → Option (ℕ × List ℕ)
get32 (a ∷ b ∷ c ∷ d ∷ rest) = some (a + 256 * b + 65536 * c + 16777216 * d, rest)
get32 _ = none

abbrev put64 : ℕ → List ℕ
put64 n = put32 (n % 4294967296) ++ put32 (n / 4294967296)

abbrev get64_high : ℕ → Option (ℕ × List ℕ) → Option (ℕ × List ℕ)
get64_high low none = none
get64_high low (some (high, rest)) = some (low + 4294967296 * high, rest)

abbrev get64_from : Option (ℕ × List ℕ) → Option (ℕ × List ℕ)
get64_from none = none
get64_from (some (low, rest)) = get64_high low (get32 rest)

abbrev get64 : List ℕ → Option (ℕ × List ℕ)
get64 input = get64_from (get32 input)

abbrev get_slice_from : Option (ℕ × List ℕ) → Option (List ℕ × List ℕ)
get_slice_from none = none
get_slice_from (some (n, rest)) = some (take n rest, drop n rest)

abbrev sum : List ℕ → ℕ
sum [] = 0
sum (x ∷ xs) = x + sum xs

abbrev pub sample_coding : Coding
sample_coding = record {
  put_fixed32 = put32;
  put_fixed64 = put64;
  get_fixed32 = get32;
  get_fixed64 = get64;
  put_length_prefixed_slice = λ s. put32 (length s) ++ s;
  get_length_prefixed_slice = λ input. get_slice_from (get32 input);
  bytes_of32 = put32;
  crc_extend = λ n s. (n + sum s) % u32;
  crc_mask = λ n. n % u32;
  crc_unmask = λ n. n % u32;
}

digits :
    (n : ℕ)
    → n < u32
    → n % 256 + 256 * (n / 256 % 256) + 65536 * (n / 65536 % 256) + 16777216 * (n / 16777216 % 256)
      ≡ n
digits n h = omega arith

get-put32 : (n : ℕ) (rest : List ℕ) → n < u32 → get32 (put32 n ++ rest) ≡ some (n, rest)
get-put32 n rest h = ap (λ k. some (k, rest)) (digits n h)

halves : (n : ℕ) → n % 4294967296 + 4294967296 * (n / 4294967296) ≡ n
halves n = omega arith

get-put64 : (n : ℕ) (rest : List ℕ) → n < u64 → get64 (put64 n ++ rest) ≡ some (n, rest)
get-put64 n rest h =
    rw (digits (n % 4294967296) (omega arith), digits (n / 4294967296) (omega arith))
      (ap (λ k. some (k, rest)) (halves n))

get-put_slice :
    (s rest : List ℕ)
    → length s < u32
    → get_slice_from (get32 ((put32 (length s) ++ s) ++ rest)) ≡ some (s, rest)
get-put_slice s rest h =
    rw (digits (length s) h, take_length-append s rest, drop_length-append s rest) refl

pub sample_laws : CodingLaws sample_coding
sample_laws = record {
  get-put_fixed32 = get-put32;
  get-put_fixed64 = get-put64;
  get-put_slice = get-put_slice;
  get_fixed32_nil = refl;
  get_slice_nil = refl;
  length-put_fixed32 = λ n. refl;
  length-put_fixed64 = λ n. refl;
  crc_word = λ n s. omega arith;
  mask_word = λ n. omega arith;
  unmask-mask = λ n h. omega arith;
}
