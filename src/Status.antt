-- ===== src/Status.antt =====
-- The results of operations: RocksDB's `IOStatus` and `Status`, by the codes that ZenFS returns or
-- tests for. The messages are not modelled.
use zenfs.Base.{Bool, true, false, ◌≡◌, refl, ◌⊎◌, inl, inr}

pub data Status : Type 0 where
  ok no_space io_error corruption not_found invalid_argument not_supported aborted : Status

abbrev pub is_ok : Status → Bool
is_ok ok = true
is_ok _ = false

pub Status-cases : (s : Status) → (s ≡ ok) ⊎ (is_ok s ≡ false)
Status-cases ok = inl refl
Status-cases no_space = inr refl
Status-cases io_error = inr refl
Status-cases corruption = inr refl
Status-cases not_found = inr refl
Status-cases invalid_argument = inr refl
Status-cases not_supported = inr refl
Status-cases aborted = inr refl
