-- ===== src/Coding.antt =====
-- The byte formats that ZenFS takes from RocksDB (util/coding.h, util/crc32c.h), which is not part of
-- this repository: the operations are parameters, with the laws that the code relies on.
pub mod Sample
use zenfs.Base.{ℕ, ◌<◌, ◌≡◌, Option, none, some, List, [], ◌++◌, length}
use zenfs.Base.Words.{u32, u64}

pub record Coding : Type 0 where
  pub put_fixed32 : ℕ → List ℕ
  pub put_fixed64 : ℕ → List ℕ
  pub get_fixed32 : List ℕ → Option (ℕ × List ℕ)
  pub get_fixed64 : List ℕ → Option (ℕ × List ℕ)
  pub put_length_prefixed_slice : List ℕ → List ℕ
  pub get_length_prefixed_slice : List ℕ → Option (List ℕ × List ℕ)
  -- The bytes of a `uint32_t` in memory.
  pub bytes_of32 : ℕ → List ℕ
  pub crc_extend : ℕ → List ℕ → ℕ
  pub crc_mask : ℕ → ℕ
  pub crc_unmask : ℕ → ℕ

-- What was put is what is got, with the rest of the input; a fixed-width number takes its width; an
-- empty input has no number and no slice; a checksum is a word, and masking is undone by unmasking.
pub record CodingLaws (c : Coding) : Type 0 where
  pub get-put_fixed32 :
      (n : ℕ) (rest : List ℕ) → n < u32 → c.get_fixed32 (c.put_fixed32 n ++ rest) ≡ some (n, rest)
  pub get-put_fixed64 :
      (n : ℕ) (rest : List ℕ) → n < u64 → c.get_fixed64 (c.put_fixed64 n ++ rest) ≡ some (n, rest)
  pub get-put_slice :
      (s rest : List ℕ)
      → length s < u32
      → c.get_length_prefixed_slice (c.put_length_prefixed_slice s ++ rest) ≡ some (s, rest)
  pub get_fixed32_nil : c.get_fixed32 [] ≡ none
  pub get_slice_nil : c.get_length_prefixed_slice [] ≡ none
  pub length-put_fixed32 : (n : ℕ) → length (c.put_fixed32 n) ≡ 4
  pub length-put_fixed64 : (n : ℕ) → length (c.put_fixed64 n) ≡ 8
  pub crc_word : (n : ℕ) (s : List ℕ) → c.crc_extend n s < u32
  pub mask_word : (n : ℕ) → c.crc_mask n < u32
  pub unmask-mask : (n : ℕ) → n < u32 → c.crc_unmask (c.crc_mask n) ≡ n
