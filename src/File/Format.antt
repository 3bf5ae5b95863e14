-- ===== src/File/Format.antt =====
-- `EncodeTo` and `DecodeFrom` of extents and files (fs/io_zenfs.cc).
pub mod RoundTrip
use zenfs.Base.{
  ℕ, zero, suc, ◌+◌, Bool, true, false, not, Option, none, some, List, [], ◌∷◌, ◌++◌, drop, length,
  if◌then◌else◌, ◌==◌,
}
use zenfs.Base.Words.{u32}
use zenfs.Status.{Status, ok, corruption, is_ok}
use zenfs.Platform.{Platform}
use zenfs.Coding.{Coding}
use zenfs.Device.State.{Zbd}
use zenfs.Device.Space.{get_io_zone}
use zenfs.File.Tag
use zenfs.File.{ZoneExtent, ZoneFile, FileName, add_used, metadata_synced}

module _ (c : Coding) where
  unfoldable pub encode_extent : ZoneExtent → List ℕ
  encode_extent e = c.put_fixed64 e.start ++ c.put_fixed64 e.length

  unfoldable pub encode_extents : List ZoneExtent → List ℕ
  unfolding encode_extent
  encode_extents [] = []
  encode_extents (e ∷ es) =
      c.put_fixed32 Tag.extent
      ++ (c.put_length_prefixed_slice (encode_extent e) ++ encode_extents es)

  unfoldable pub encode_links : List FileName → List ℕ
  encode_links [] = []
  encode_links (n ∷ ns) =
      c.put_fixed32 Tag.linked_filename ++ (c.put_length_prefixed_slice n ++ encode_links ns)

  -- What stands before the extents, and what stands behind them.
  abbrev encode_head : ZoneFile → List ℕ → List ℕ
  encode_head f rest =
      c.put_fixed32 Tag.file_id
      ++ (c.put_fixed64 f.file_id
          ++ (c.put_fixed32 Tag.file_size
              ++ (c.put_fixed64 f.file_size
                  ++ (c.put_fixed32 Tag.write_life_time_hint
                      ++ (c.put_fixed32 (f.lifetime) ++ rest)))))

  abbrev encode_tail : ZoneFile → List ℕ
  encode_tail f =
      c.put_fixed32 Tag.modification_time
      ++ (c.put_fixed64 f.m_time
          ++ (c.put_fixed32 Tag.active_extent_start
              ++ (c.put_fixed64 f.extent_start
                  ++ ((if f.is_sparse then c.put_fixed32 Tag.is_sparse else [])
                      ++ encode_links f.linkfiles))))

  -- `EncodeTo`, from the extent at `extent_start` on.
  unfoldable pub encode_file : ZoneFile → ℕ → List ℕ
  unfolding encode_extents encode_links
  encode_file f extent_start =
      encode_head f (encode_extents (drop extent_start f.extents) ++ encode_tail f)

  unfoldable pub encode_update : ZoneFile → List ℕ
  unfolding encode_file
  encode_update f = encode_file f f.nr_synced_extents

  unfoldable pub encode_snapshot : ZoneFile → List ℕ
  unfolding encode_file
  encode_snapshot f = encode_file f 0

  abbrev number_or_zero : Option (ℕ × List ℕ) → ℕ × List ℕ
  number_or_zero none = (0, [])
  number_or_zero (some r) = r

  -- `ZoneExtent::DecodeFrom`; the zone is not known yet.
  unfoldable pub decode_extent : List ℕ → Option (ℕ × ℕ)
  decode_extent input =
      if length input == 16
      then (let (start, rest) = number_or_zero (c.get_fixed64 input) in
          let (len, rest') = number_or_zero (c.get_fixed64 rest) in some (start, len))
      else none

  -- A slice that cannot be got stays empty.
  abbrev slice_or_empty : List ℕ → Option (List ℕ × List ℕ) → List ℕ × List ℕ
  slice_or_empty input none = ([], input)
  slice_or_empty input (some r) = r

  module _ {D F : Type 0} (p : Platform D F) where
    -- What one tag leaves: the file, the rest of the input, and the device; or the error.
    pub data Decoded : Type 0 where
      more : ZoneFile → List ℕ → Zbd D F → Decoded
      bad : ZoneFile → Zbd D F → Decoded

    abbrev set_number : (ℕ → ZoneFile) → ZoneFile → Zbd D F → Option (ℕ × List ℕ) → Decoded
    set_number update f s none = bad f s
    set_number update f s (some (n, rest)) = more (update n) rest s

    abbrev add_extent : ZoneFile → List ℕ → Zbd D F → Option (ℕ × ℕ) → Decoded
    add_extent f rest s none = bad f s
    add_extent f rest s (some (start, len)) = elim (get_io_zone p start s) [
      | none ↦ bad f s
      | some zone ↦
          more
            (record f {
              extents = f.extents ++ record { start = start; length = len; zone = zone } ∷ [];
            })
            rest (add_used zone len s)
    ]

    abbrev add_link : ZoneFile → Zbd D F → Option (List ℕ × List ℕ) → Decoded
    add_link f s none = bad f s
    add_link f s (some (name, rest)) =
        if length name == 0
        then bad f s
        else more (record f { linkfiles = f.linkfiles ++ name ∷ [] }) rest s

    -- The `switch` of `DecodeFrom`.
    unfoldable pub decode_tag : ℕ → ZoneFile → List ℕ → Zbd D F → Decoded
    unfolding add_used decode_extent get_io_zone
    decode_tag tag f input s =
        if tag == Tag.file_size
        then set_number (λ n. record f { file_size = n }) f s (c.get_fixed64 input)
        else if tag == Tag.write_life_time_hint
        then set_number (λ n. record f { lifetime = n }) f s (c.get_fixed32 input)
        else if tag == Tag.extent
        then (let (slice, rest) = slice_or_empty input (c.get_length_prefixed_slice input) in
            add_extent f rest s (decode_extent slice))
        else if tag == Tag.modification_time
        then set_number (λ n. record f { m_time = n }) f s (c.get_fixed64 input)
        else if tag == Tag.active_extent_start
        then set_number (λ n. record f { extent_start = n }) f s (c.get_fixed64 input)
        else if tag == Tag.is_sparse
        then more (record f { is_sparse = true }) input s
        else if tag == Tag.linked_filename
        then add_link f s (c.get_length_prefixed_slice input)
        else bad f s

    -- The loop of `DecodeFrom`; `none`: the fuel ran out.
    unfoldable pub decode_tags :
        ℕ → ZoneFile → List ℕ → Zbd D F → Option (Status × ZoneFile × Zbd D F)
    unfolding decode_tag metadata_synced
    decode_tags zero f input s = none
    decode_tags (suc fuel) f input s = elim (c.get_fixed32 input) [
      | none ↦ some (ok, metadata_synced f, s)
      | some (tag, rest) ↦ elim (decode_tag tag f rest s) [
        | bad f' s' ↦ some (corruption, f', s')
        | more f' rest' s' ↦ decode_tags fuel f' rest' s'
      ]
    ]

    unfoldable pub decode_file :
        ℕ → ZoneFile → List ℕ → Zbd D F → Option (Status × ZoneFile × Zbd D F)
    unfolding decode_tags
    decode_file fuel f input s = elim (c.get_fixed32 input) [
      | none ↦ some (corruption, f, s)
      | some (tag, rest) ↦
          if tag == Tag.file_id
          then elim (c.get_fixed64 rest) [
            | none ↦ some (corruption, f, s)
            | some (id, rest') ↦ decode_tags fuel (record f { file_id = id }) rest' s
          ]
          else some (corruption, f, s)
    ]
