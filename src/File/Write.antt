-- ===== src/File/Write.antt =====
-- Writing a `ZoneFile` (fs/io_zenfs.cc). `persist` is the interface `MetadataWriter`. A result `none`
-- stands for a call that does not return: it waits for a token, its fuel runs out, or it meets a
-- null zone.
use zenfs.Base.{
  ℕ, zero, suc, ◌+◌, ◌-◌, ◌%◌, Bool, false, not, Option, none, some, List, [], ◌∷◌, ◌++◌, take,
  drop, length, replicate, get_elem?, if◌then◌else◌, ltb, ◌==◌,
}
use zenfs.Base.Words.{add64, sub64, sub32}
use zenfs.Status.{Status, ok, no_space, is_ok}
use zenfs.Platform.{Platform}
use zenfs.Zone.{Zone, is_full}
use zenfs.Coding.{Coding}
use zenfs.Device.State.{Zbd, io, release_at, close_at, append_at}
use zenfs.Device.Tokens.{put_open_io_zone_token, put_active_io_zone_token}
use zenfs.Device.Alloc.{allocate_io_zone}
use zenfs.File.{ZoneFile, is_wal, no_extent, sparse_header_size, add_used, release_wr_lock}

abbrev pub Op : Type 0 → Type 0 → Type 0
Op D F = Option (Status × ZoneFile × Zbd D F)

-- The bytes that bring `size` up to a multiple of the block size.
unfoldable pub pad_size : ℕ → ℕ → ℕ
pad_size block_size size = if size % block_size == 0 then 0 else block_size - size % block_size

abbrev add_extent : ℕ → ℕ → ℕ → ZoneFile → ZoneFile
add_extent start len zone f = record f {
  extents = f.extents ++ record { start = start; length = len; zone = zone } ∷ [];
}

module _ {D F : Type 0} where
  abbrev pub active : ZoneFile → Zbd D F → Option Zone
  active f s = elim f.active_zone [ none ↦ none | some i ↦ get_elem? s.io_zones i ]

  abbrev push_extent_in : Option ℕ → Option Zone → ZoneFile → Zbd D F → ZoneFile × Zbd D F
  push_extent_in (some i) (some z) f s =
      let len = sub64 f.file_size f.extent_filepos in
      if len == 0 then (f, s) else (
        record (add_extent f.extent_start len i f) {
          extent_start = z.wp;
          extent_filepos = f.file_size;
        },
        add_used i len s,
      )
  push_extent_in _ _ f s = (f, s)

  unfoldable pub push_extent : ZoneFile → Zbd D F → ZoneFile × Zbd D F
  unfolding add_used
  push_extent f s = push_extent_in f.active_zone (active f s) f s

module _ {D F : Type 0} (p : Platform D F) where
  abbrev close_zone : Option ℕ → Option Zone → ZoneFile → Zbd D F → Status × ZoneFile × Zbd D F
  close_zone (some i) (some z) f s =
      let (st, s') = close_at p (io i) s in
      let (released, s'') = release_at (io i) s' in
      let f' = record f { active_zone = none } in
      if not (is_ok st)
      then (st, f', s'')
      else (let s''' = put_open_io_zone_token s'' in
          (st, f', (if is_full z then put_active_io_zone_token s''' else s''')))
  close_zone _ _ f s = (ok, f, s)

  unfoldable pub close_active_zone : ZoneFile → Zbd D F → Status × ZoneFile × Zbd D F
  unfolding close_at release_at put_open_io_zone_token put_active_io_zone_token
  close_active_zone f s = close_zone f.active_zone (active f s) f s

  module _ (persist : ZoneFile → Zbd D F → Op D F) (fuel : ℕ) where
    unfoldable pub close_wr : ZoneFile → Zbd D F → Op D F
    unfolding close_active_zone release_wr_lock
    close_wr f s = elim (persist (record f { extent_start = no_extent }) s) [
      | none ↦ none
      | some (st, f', s') ↦
          if not (is_ok st)
          then some (st, f', s')
          else some (close_active_zone (release_wr_lock f') s')
    ]

    abbrev start_zone : ZoneFile → Status × Option ℕ × Zbd D F → Op D F
    start_zone f (st, none, s) = some ((if is_ok st then no_space else st), f, s)
    start_zone f (st, some i, s) =
        if not (is_ok st) then some (st, f, s) else elim (get_elem? s.io_zones i) [
          | none ↦ none
          | some z ↦
              persist
                (record f {
                  active_zone = some i;
                  extent_start = z.wp;
                  extent_filepos = f.file_size;
                })
                s
        ]

    unfoldable pub allocate_new_zone : ZoneFile → Zbd D F → Op D F
    unfolding allocate_io_zone
    allocate_new_zone f s = elim (allocate_io_zone p fuel f.lifetime (is_wal f.io_type) s) [
      | none ↦ none
      | some r ↦ start_zone f r
    ]

    -- `if (!active_zone_) AllocateNewZone()`.
    abbrev with_zone : ZoneFile → Zbd D F → Op D F
    with_zone f s = elim f.active_zone [ none ↦ allocate_new_zone f s | some i ↦ some (ok, f, s) ]

    abbrev then_do : Op D F → (ZoneFile → Zbd D F → Op D F) → Op D F
    then_do none k = none
    then_do (some (st, f, s)) k = if is_ok st then k f s else some (st, f, s)

    -- The room that is taken of what is left to write.
    abbrev write_size : ℕ → Zone → ℕ
    write_size left z = if ltb z.capacity left then z.capacity else left

    -- A full zone is closed, and a new one allocated.
    unfoldable pub next_zone : ZoneFile → Zbd D F → Op D F
    unfolding close_active_zone allocate_new_zone
    next_zone f s =
        let (st, f', s') = close_active_zone f s in
        if is_ok st then allocate_new_zone f' s' else some (st, f', s')

    -- One extent has been appended to the zone at `i`: the books of the file and of the zone.
    abbrev note_extent : ℕ → ℕ → ℕ → ZoneFile → Zbd D F → ZoneFile × Zbd D F
    note_extent start len i f s = elim (get_elem? s.io_zones i) [
      | none ↦ (f, s)
      | some z ↦ (
        record (add_extent start len i f) {
          extent_start = z.wp;
          file_size = add64 f.file_size len;
        },
        add_used i len s,
      )
    ]

    -- The loop of `BufferedAppend`. `buf` is the buffer from its start, `left` the bytes to write.
    abbrev is_full_at : ℕ → Zbd D F → Bool
    is_full_at i s = elim (get_elem? s.io_zones i) [ none ↦ false | some z ↦ is_full z ]

    unfoldable pub buffered_append_loop : ℕ → List ℕ → ℕ → ZoneFile → Zbd D F → Op D F
    unfolding next_zone pad_size add_used append_at
    buffered_append_loop zero buf left f s = none
    buffered_append_loop (suc rounds) buf left f s =
        if left == 0 then some (ok, f, s) else elim f.active_zone [
          | none ↦ none
          | some i ↦ elim (get_elem? s.io_zones i) [
            | none ↦ none
            | some z ↦
                let wr_size = write_size left z in
                elim (append_at p (io i)
                  (take wr_size buf ++ replicate (pad_size p.block_size wr_size) 0) s) [
                    | none ↦ none
                    | some (st, s') ↦
                        if not (is_ok st)
                        then some (st, f, s')
                        else (let (f', s'') = note_extent f.extent_start wr_size i f s' in
                            if is_full_at i s''
                            then then_do (next_zone f' s'')
                                (buffered_append_loop rounds (drop wr_size buf) (left - wr_size))
                            else buffered_append_loop rounds buf (left - wr_size) f' s'')
                  ]
          ]
        ]

    unfoldable pub buffered_append : ℕ → List ℕ → ℕ → ZoneFile → Zbd D F → Op D F
    unfolding buffered_append_loop allocate_new_zone
    buffered_append rounds buf size f s =
        then_do (with_zone f s) (buffered_append_loop rounds buf size)

    -- The loop of `SparseAppend`. `payload` stands behind the header of 8 bytes, whose room the
    -- caller has left in front of it.
    unfoldable pub sparse_append_loop : Coding → ℕ → List ℕ → ℕ → ZoneFile → Zbd D F → Op D F
    unfolding next_zone pad_size add_used append_at
    sparse_append_loop c zero payload left f s = none
    sparse_append_loop c (suc rounds) payload left f s =
        if left == 0 then some (ok, f, s) else elim f.active_zone [
          | none ↦ none
          | some i ↦ elim (get_elem? s.io_zones i) [
            | none ↦ none
            | some z ↦
                let wr_size = write_size (left + sparse_header_size) z in
                let extent_length = sub32 wr_size sparse_header_size in
                elim (append_at p (io i)
                  (take wr_size (c.put_fixed64 extent_length ++ payload)
                    ++ replicate (pad_size p.block_size wr_size) 0)
                  s) [
                    | none ↦ none
                    | some (st, s') ↦
                        if not (is_ok st)
                        then some (st, f, s')
                        else (let (f', s'') =
                              note_extent (add64 f.extent_start sparse_header_size) extent_length i
                                f s' in
                            if is_full_at i s''
                            then then_do (next_zone f' s'') (
                                sparse_append_loop c rounds (drop extent_length payload)
                                  (sub32 left extent_length))
                            else sparse_append_loop c rounds payload (sub32 left extent_length) f'
                                s'')
                  ]
          ]
        ]

    unfoldable pub sparse_append : Coding → ℕ → List ℕ → ℕ → ZoneFile → Zbd D F → Op D F
    unfolding sparse_append_loop allocate_new_zone
    sparse_append c rounds payload size f s =
        then_do (with_zone f s) (sparse_append_loop c rounds payload size)

    -- The start of a round of `Append`: a full zone is left behind.
    abbrev make_room : ℕ → ZoneFile → Zbd D F → Op D F
    make_room i f s =
        if is_full_at i s
        then (let (f', s') = push_extent f s in next_zone f' s')
        else some (ok, f, s)

    -- The rest of a round: as much as fits is appended.
    abbrev append_some :
        List ℕ → (List ℕ → ZoneFile → Zbd D F → Op D F) → ZoneFile → Zbd D F → Op D F
    append_some left again f s = elim f.active_zone [
      | none ↦ none
      | some i ↦ elim (get_elem? s.io_zones i) [
        | none ↦ none
        | some z ↦
            let wr_size = write_size (length left) z in
            elim (append_at p (io i) (take wr_size left) s) [
              | none ↦ none
              | some (st, s') ↦
                  if is_ok st
                  then again (drop wr_size left)
                      (record f { file_size = add64 f.file_size wr_size }) s'
                  else some (st, f, s')
            ]
      ]
    ]

    -- The loop of `Append`, for data that is aligned to blocks.
    unfoldable pub append_loop : ℕ → List ℕ → ZoneFile → Zbd D F → Op D F
    unfolding next_zone push_extent append_at
    append_loop zero left f s = none
    append_loop (suc rounds) left f s =
        if length left == 0 then some (ok, f, s) else elim f.active_zone [
          | none ↦ none
          | some i ↦ then_do (make_room i f s) (append_some left (append_loop rounds))
        ]

    unfoldable pub append_file : ℕ → List ℕ → ZoneFile → Zbd D F → Op D F
    unfolding append_loop allocate_new_zone
    append_file rounds body f s = then_do (with_zone f s) (append_loop rounds body)
