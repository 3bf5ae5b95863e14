-- ===== src/Fs/Mount.antt =====
-- `Mount`, `MkFS`, `Repair`, `RebuildZoneLifeTime` and the end of a `ZenFS` (fs/fs_zenfs.cc).
use zenfs.Base.{
  ℕ, zero, suc, ◌%◌, Bool, true, false, not, Option, none, some, List, [], ◌∷◌, ◌++◌, length,
  get_elem?, if◌then◌else◌, ltb, leb, ◌==◌,
}
use zenfs.Status.{Status, ok, not_supported, aborted, not_found, io_error, invalid_argument, is_ok}
use zenfs.Zone.{Zone}
use zenfs.Device.State.{Zbd, io, meta, put_zone, acquire_at, release_at, reset_at}
use zenfs.Device.Alloc.{reset_unused_io_zones}
use zenfs.Superblock.{Superblock, encode_super, decode_super, compatible_with, new_superblock}
use zenfs.MetaLog.{MetaLog, new_meta_log, read_record}
use zenfs.File.{FileName, ZoneFile, ZoneExtent, has_active_extent}
use zenfs.File.Recover.{recover}
use zenfs.File.Write.{Op}
use zenfs.Fs.{Env, ZenFs, Run, and_then, put_object, handles, clear_files, format_path, c_string}
use zenfs.Fs.Log.{
  add_to_log, release_log, persist_snapshot, persist_record, roll_meta_zone_locked,
  encode_io_zone_reset_count,
}
use zenfs.Fs.Replay.{Recovered, recover_from}

-- A metadata zone with a valid superblock, and the log in it.
pub record Candidate : Type 0 where
  pub superblock : Superblock
  pub log : MetaLog

-- `std::sort` by descending sequence number, then by descending position.
unfoldable pub insert_candidate : Candidate → List Candidate → List Candidate
insert_candidate k [] = k ∷ []
insert_candidate k (l ∷ ls) =
    let rest = insert_candidate k ls in
    if leb (l.superblock).sequence (k.superblock).sequence then k ∷ l ∷ ls else l ∷ rest

unfoldable pub sort_candidates : List Candidate → List Candidate → List Candidate
unfolding insert_candidate
sort_candidates sorted [] = sorted
sort_candidates sorted (k ∷ ks) = sort_candidates (insert_candidate k sorted) ks

module _ {D F A : Type 0} (e : Env D F A) (fuel : ℕ) where
  -- `Repair` of the objects with these positions.
  abbrev repaired : ℕ → ZenFs D F A → Op D F → Run D F A
  repaired h s none = none
  repaired h s (some (st, f, zbd')) = some (st, put_object h f (record s { zbd = zbd' }))

  unfoldable pub repair_objects : List ℕ → ZenFs D F A → Run D F A
  unfolding recover
  repair_objects [] s = some (ok, s)
  repair_objects (h ∷ hs) s = elim (get_elem? s.store h) [
    | none ↦ none
    | some f ↦
        if has_active_extent f
        then and_then (repaired h s (recover e.coding e.platform fuel f s.zbd)) (repair_objects hs)
        else repair_objects hs s
  ]

  unfoldable pub repair : ZenFs D F A → Run D F A
  unfolding repair_objects
  repair s = repair_objects (handles s.files) s

  -- A zone's lifetime is raised to that of a file with an extent in it.
  abbrev raised : ℕ → ℕ → Option Zone → Zbd D F → Zbd D F
  raised lifetime i none s = s
  raised lifetime i (some z) s =
      if ltb z.lifetime lifetime then put_zone (io i) (record z { lifetime = lifetime }) s else s

  unfoldable pub raise_lifetimes : ℕ → List ZoneExtent → Zbd D F → Zbd D F
  raise_lifetimes lifetime [] s = s
  raise_lifetimes lifetime (x ∷ xs) s =
      raise_lifetimes lifetime xs (raised lifetime x.zone (get_elem? s.io_zones x.zone) s)

  unfoldable pub raise_for_objects : List ℕ → List ZoneFile → Zbd D F → Zbd D F
  unfolding raise_lifetimes
  raise_for_objects [] store s = s
  raise_for_objects (h ∷ hs) store s = elim (get_elem? store h) [
    | none ↦ raise_for_objects hs store s
    | some f ↦ raise_for_objects hs store (raise_lifetimes f.lifetime f.extents s)
  ]

  unfoldable pub rebuild_zone_life_time : ZenFs D F A → ZenFs D F A
  unfolding raise_for_objects
  rebuild_zone_life_time s = record s { zbd = raise_for_objects (handles s.files) s.store s.zbd }

  unfoldable pub release_logs : List Candidate → ZenFs D F A → ZenFs D F A
  unfolding release_log
  release_logs [] s = s
  release_logs (k ∷ ks) s = release_logs ks (release_log e k.log s)

  -- A `Superblock` before it is decoded.
  abbrev blank_superblock : Superblock
  blank_superblock = record {
    magic = 0;
    uuid = [];
    sequence = 0;
    superblock_version = 0;
    flags = 0;
    block_size = 0;
    zone_size = 0;
    nr_zones = 0;
    finish_threshold = 0;
    aux_fs_path = [];
    zenfs_version = [];
    reserved = [];
  }

  -- What the search for superblocks gives.
  abbrev Found : Type 0
  Found = Option (Status × List Candidate × ZenFs D F A)

  -- The record at the start of a metadata zone, read by `log`, whose zone is acquired.
  abbrev checked :
      MetaLog
      → List Candidate
      → List ℕ
      → ZenFs D F A
      → (List Candidate → ZenFs D F A → Found)
      → Found
  checked log valid super_record s next =
      let (st, sb) = decode_super e.coding blank_superblock super_record in
      let st' = (if is_ok st then compatible_with e.platform sb else st) in
      if is_ok st'
      then next (valid ++ record { superblock = sb; log = log } ∷ []) s
      else some (st', [], release_logs valid (release_log e log s))

  -- The loop of `Mount` over the metadata zones from position `i` on.
  unfoldable pub find_superblocks : ℕ → ℕ → List Candidate → ZenFs D F A → Found
  unfolding acquire_at read_record decode_super compatible_with release_logs release_log
      new_meta_log
  find_superblocks zero i valid s = some (ok, valid, s)
  find_superblocks (suc n) i valid s = elim (get_elem? s.zbd.meta_zones i) [
    | none ↦ none
    | some z ↦
        let (got, zbd') = acquire_at (meta i) s.zbd in
        let log = new_meta_log (e.platform).block_size z i in
        if not got
        then some (aborted, [], release_logs valid s)
        else elim (read_record e.coding e.platform fuel z log s.zbd.dev) [
          | none ↦ none
          | some r ↦
              let log' = record log { read_pos = r.read_pos } in
              let s' = record s { zbd = record zbd' { dev = r.dev } } in
              if not (is_ok r.status)
              then find_superblocks n (suc i) valid (release_log e log' s')
              else if length r.slice == 0
              then find_superblocks n (suc i) valid (release_log e log' s')
              else checked log' valid r.slice s' (find_superblocks n (suc i))
        ]
  ]

  -- The log that was recovered from, with its superblock, and the candidates that were not tried.
  pub record Latest : Type 0 where
    pub status : Status
    pub chosen : Option Candidate
    pub untried : List Candidate
    pub state : ZenFs D F A

  abbrev is_not_found : Status → Bool
  is_not_found not_found = true
  is_not_found _ = false

  -- The loop over the logs in the order of their sequence numbers. The logs that are not needed any
  -- more are destroyed.
  abbrev try_next :
      Candidate → List Candidate → Recovered e → (ZenFs D F A → Option Latest) → Option Latest
  try_next k ks none next = none
  try_next k ks (some (st, log, s)) next =
      if is_ok st
      then some (record {
        status = ok;
        chosen = some (record { superblock = k.superblock; log = log });
        untried = ks;
        state = s;
      })
      else if is_not_found st
      then next (release_log e log s)
      else some (record {
        status = st;
        chosen = none;
        untried = [];
        state = release_logs ks (release_log e log s);
      })

  unfoldable pub recover_latest : List Candidate → ZenFs D F A → Option Latest
  unfolding recover_from release_log release_logs
  recover_latest [] s = some (record { status = io_error; chosen = none; untried = []; state = s })
  recover_latest (k ∷ ks) s = try_next k ks (recover_from e fuel k.log s) (recover_latest ks)

  -- `meta_log_ = std::move(log)` destroys a log that was there.
  abbrev set_meta_log : MetaLog → ZenFs D F A → ZenFs D F A
  set_meta_log log s = elim s.meta_log [
    | none ↦ record s { meta_log = some log }
    | some old ↦ record (release_log e old s) { meta_log = some log }
  ]

  -- `IsGCEnabled`.
  abbrev is_gc_enabled : Superblock → Bool
  is_gc_enabled sb = sb.flags % 2 == 1

  -- The end of `Mount`.
  unfoldable pub start_writing : Superblock → ZenFs D F A → Run D F A
  unfolding reset_unused_io_zones
  start_writing sb s =
      let (st, zbd') = reset_unused_io_zones e.platform s.zbd in
      let s' = record s { zbd = zbd' } in
      if is_ok st
      then some (ok, (if is_gc_enabled sb then record s' { run_gc_worker = true } else s'))
      else some (st, s')

  unfoldable pub mount_from : Bool → Candidate → List Candidate → ZenFs D F A → Run D F A
  unfolding repair roll_meta_zone_locked rebuild_zone_life_time start_writing release_logs
      release_log
  mount_from readonly k untried s =
      let sb = k.superblock in
      let t = set_meta_log k.log s in
      let t' = record t {
        superblock = some sb;
        zbd = record (t.zbd) { finish_threshold = sb.finish_threshold };
      } in
      let (st, aux') = (e.target).create_dir_if_missing t'.aux (c_string sb.aux_fs_path) in
      let freed = release_logs untried (record t' { aux = aux' }) in
      if not (is_ok st)
      then some (st, freed)
      else if readonly
      then some (ok, rebuild_zone_life_time freed)
      else and_then (and_then (repair freed) (roll_meta_zone_locked e))
          (λ u. start_writing sb (rebuild_zone_life_time u))

  abbrev mount_latest : Bool → Option Latest → Run D F A
  mount_latest readonly none = none
  mount_latest readonly (some l) = elim l.chosen [
    | none ↦ some (l.status, l.state)
    | some k ↦ mount_from readonly k l.untried l.state
  ]

  abbrev mount_found : Bool → Found → Run D F A
  mount_found readonly none = none
  mount_found readonly (some (st, valid, s)) =
      if not (is_ok st)
      then some (st, s)
      else if length valid == 0
      then some (not_found, s)
      else mount_latest readonly (recover_latest (sort_candidates [] valid) s)

  unfoldable pub mount : Bool → ZenFs D F A → Run D F A
  unfolding find_superblocks recover_latest sort_candidates mount_from
  mount readonly s =
      if ltb (length s.zbd.meta_zones) 2
      then some (not_supported, s)
      else mount_found readonly (find_superblocks (length s.zbd.meta_zones) 0 [] s)

module _ {D F A : Type 0} (e : Env D F A) where
  -- The loop of `MkFS`: all metadata zones are reset, and the first that could be is kept acquired.
  abbrev Kept : Type 0
  Kept = Status × Option ℕ × ZenFs D F A

  abbrev released : Bool → Option ℕ → ZenFs D F A → (Option ℕ → ZenFs D F A → Kept) → ℕ → Kept
  released keep meta_zone s next i =
      if keep
      then next (some i) s
      else (let (freed, zbd') = release_at (meta i) s.zbd in
          let s' = record s { zbd = zbd' } in
          if freed then next meta_zone s' else (aborted, meta_zone, s'))

  abbrev is_none {ℓ} : {B : Type ℓ} → Option B → Bool
  is_none none = true
  is_none (some b) = false

  unfoldable pub reset_meta_zones : ℕ → ℕ → Option ℕ → ZenFs D F A → Kept
  unfolding acquire_at reset_at release_at
  reset_meta_zones zero i meta_zone s = (ok, meta_zone, s)
  reset_meta_zones (suc n) i meta_zone s =
      let (got, zbd') = acquire_at (meta i) s.zbd in
      let (st, zbd'') = reset_at e.platform (meta i) zbd' in
      let keep = (if is_ok st then is_none meta_zone else false) in
      let rest =
        released keep meta_zone (record s { zbd = zbd'' }) (reset_meta_zones n (suc i)) i in
      if got then rest else (aborted, meta_zone, record s { zbd = zbd' })

  abbrev released_after : MetaLog → Run D F A → Run D F A
  released_after log none = none
  released_after log (some (st, s)) = some (st, release_log e log s)

  abbrev io_error_or_ok : Run D F A → Run D F A
  io_error_or_ok none = none
  io_error_or_ok (some (st, s)) = some ((if is_ok st then ok else io_error), s)

  -- The superblock and an empty snapshot go to the log in the zone `i`.
  unfoldable pub format_log : Superblock → ℕ → ZenFs D F A → Run D F A
  unfolding encode_super add_to_log persist_snapshot release_log new_meta_log
  format_log sb i s = elim (get_elem? s.zbd.meta_zones i) [
    | none ↦ none
    | some z ↦
        let log = new_meta_log (e.platform).block_size z i in
        let (super_string, sb') = encode_super e.coding sb in
        released_after log (
          and_then (add_to_log e log super_string s)
            (λ t. io_error_or_ok (persist_snapshot e log t)))
  ]

  abbrev formatted : Superblock → Kept → Run D F A
  formatted sb (st, meta_zone, s) =
      if not (is_ok st)
      then some (st, s)
      else elim meta_zone [ none ↦ some (io_error, s) | some i ↦ format_log sb i s ]

  -- The unique id and the version string of the superblock are given.
  unfoldable pub mk_fs : List ℕ → List ℕ → FileName → ℕ → Bool → ZenFs D F A → Run D F A
  unfolding format_path clear_files reset_unused_io_zones reset_meta_zones format_log new_superblock
  mk_fs unique_id version aux_fs_p finish_threshold enable_gc s =
      let aux_fs_path = format_path e aux_fs_p in
      let sb = new_superblock e.platform unique_id version aux_fs_path finish_threshold enable_gc in
      let cleared = clear_files s in
      let (st, zbd') = reset_unused_io_zones e.platform cleared.zbd in
      let s' = record cleared { zbd = zbd' } in
      if ltb 255 (length aux_fs_path)
      then some (invalid_argument, s)
      else if not (is_ok st)
      then some (st, s')
      else formatted sb (reset_meta_zones (length s'.zbd.meta_zones) 0 none s')

  -- `~ZenFS`: the reset counters are written, the log and the files go. `none`: there is no log, or
  -- there are more io zones than counters.
  abbrev closed : Run D F A → Option (ZenFs D F A)
  closed none = none
  closed (some (st, s)) = elim s.meta_log [
    | none ↦ none
    | some log ↦ some (clear_files (record (release_log e log s) { meta_log = none }))
  ]

  unfoldable pub end_zenfs : ZenFs D F A → Option (ZenFs D F A)
  unfolding encode_io_zone_reset_count persist_record release_log clear_files
  end_zenfs s = elim (encode_io_zone_reset_count e s.zbd) [
    | none ↦ none
    | some body ↦ closed (persist_record e body (record s { run_gc_worker = false }))
  ]
