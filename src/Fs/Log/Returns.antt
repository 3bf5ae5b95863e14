-- ===== src/Fs/Log/Returns.antt =====
-- The writing of records (fs/fs_zenfs.cc) returns, on a device whose writes make progress.
use zenfs.Base.{
  ℕ, ◌<◌, ◌≡◌, refl, sym, subst, ◌∙◌, inl, inr, Bool, true, false, Option, none, some, List, length,
  get_elem?, lt-get_elem?, if◌then◌else◌, ◌==◌, ◌||◌, Bool-cases, Option-cases,
}
use zenfs.Status.{Status, ok, is_ok}
use zenfs.Zone.Valid.{WritesSome}
use zenfs.Device.State.{Zbd}
use zenfs.Device.Alloc.{allocate_meta_zone}
use zenfs.Superblock.{Superblock, encode_super}
use zenfs.MetaLog.{MetaLog, new_meta_log, add_record, encode_record}
use zenfs.Fs.{Env, ZenFs, Run, and_then, drop_reference, member, handles}
use zenfs.Fs.Tag
use zenfs.File.{ZoneFile, clear_extents}
use zenfs.Fs.Log.{
  add_to_log, synced, encode_snapshot_to, capacity_left, whatever, finish_log_zone,
  io_error_unless_ok, reset_old, rolled, roll_if_full, stamp, object_synced, is_no_space,
  write_snapshot_locked, write_end_record, end_old_log, start_new_log, release_log, roll_to,
  roll_meta_zone_locked, persist_record, persist_to, sync_found, encode_file_record,
  sync_file_metadata_no_lock,
}
use zenfs.Fs.Log.Zones.{append_at-some, Inside, allocate_meta_zone_from-Inside}

-- A file system with a log and a superblock, as it is when it is mounted.
module _ {D F A : Type 0} where
  pub record IsMounted (s : ZenFs D F A) : Type 0 where
    pub log : MetaLog
    pub has_log : s.meta_log ≡ some log
    pub superblock : Superblock
    pub has_superblock : s.superblock ≡ some superblock

  pub same_log :
      (s t : ZenFs D F A)
      → t.meta_log ≡ s.meta_log
      → t.superblock ≡ s.superblock
      → IsMounted s
      → IsMounted t
  same_log s t log sb m = record {
    log = m.log;
    has_log = log ∙ m.has_log;
    superblock = m.superblock;
    has_superblock = sb ∙ m.has_superblock;
  }

  pub drop_reference-IsMounted :
      (h : ℕ) (s : ZenFs D F A) → IsMounted s → IsMounted (drop_reference h s)
  unfolding drop_reference clear_extents
  drop_reference-IsMounted h s m =
      elim (Bool-cases (member h (handles s.files) || member h s.held)) [
        | inl e ↦ rw e m
        | inr e ↦ elim (Option-cases (get_elem? s.store h)) [
          | inl n ↦ rw (e, n) m
          | inr (f, at) ↦ rw (e, at) (same_log s _ refl refl m)
        ]
      ]

  -- A call that returns, and leaves such a file system.
  abbrev pub Returns : Run D F A → Type 0
  Returns none = ⊥
  Returns (some (st, t)) = IsMounted t

  and_then-Returns :
      (r : Run D F A) (k : ZenFs D F A → Run D F A)
      → Returns r
      → ((t : ZenFs D F A) → IsMounted t → Returns (k t))
      → Returns (and_then r k)
  and_then-Returns none k a b = a
  and_then-Returns (some (st, t)) k a b = elim (Bool-cases (is_ok st)) [
    | inl e ↦ rw e (b t a)
    | inr e ↦ rw e a
  ]

  module _ (e : Env D F A) (w : WritesSome (e.platform).backend) where
    add_to_log-Returns :
        (log : MetaLog) (body : List ℕ) (s : ZenFs D F A)
        → IsMounted s
        → Returns (add_to_log e log body s)
    unfolding add_to_log add_record
    add_to_log-Returns log body s m =
        let (o, eq) =
          append_at-some e.platform w log.zone (encode_record e.coding log.bs body) s.zbd in
        rw (add_to_log, add_record, eq)
          (record {
            log = m.log;
            has_log = m.has_log;
            superblock = m.superblock;
            has_superblock = m.has_superblock;
          })

    write_snapshot_locked-Returns :
        (log : MetaLog) (s : ZenFs D F A) → IsMounted s → Returns (write_snapshot_locked e log s)
    unfolding write_snapshot_locked
    write_snapshot_locked-Returns log s m =
        synced_lem (add_to_log e log (encode_snapshot_to e.coding s.store s.files) s)
          (add_to_log-Returns log (encode_snapshot_to e.coding s.store s.files) s m)
      where
        synced_lem : (r : Run D F A) → Returns r → Returns (synced e r)
        synced_lem none k = k
        synced_lem (some (st, t)) k = elim (Bool-cases (is_ok st)) [
          | inl q ↦ rw q (same_log t _ refl refl k)
          | inr q ↦ rw q k
        ]

    end_old_log-Returns :
        (old : MetaLog) (s : ZenFs D F A) → IsMounted s → Returns (end_old_log e old s)
    unfolding end_old_log write_end_record
    end_old_log-Returns old s m = elim (Bool-cases (capacity_left e old s == 0)) [
      | inl q ↦ rw q m
      | inr q ↦ rw q (
          ended (add_to_log e old ((e.coding).put_fixed32 Tag.end_record) s)
            (add_to_log-Returns old ((e.coding).put_fixed32 Tag.end_record) s m))
    ]
      where
        ended :
            (r : Run D F A)
            → Returns r
            → Returns (whatever e r (λ t. some (ok, finish_log_zone e old t)))
        ended none k = k
        ended (some (st, t)) k = elim (Bool-cases (capacity_left e old t == 0)) [
          | inl q ↦ rw q k
          | inr q ↦ rw q (same_log t _ refl refl k)
        ]

    start_new_log-Returns :
        (log : MetaLog) (s : ZenFs D F A) → IsMounted s → Returns (start_new_log e log s)
    unfolding start_new_log
    start_new_log-Returns log s m =
        let sb = encode_super e.coding m.superblock in
        let s' = record s { superblock = some sb.1 } in
        let m' : IsMounted s' = record {
          log = m.log;
          has_log = m.has_log;
          superblock = sb.1;
          has_superblock = refl;
        } in
        rw m.has_superblock (started (add_to_log e log sb.0 s') (add_to_log-Returns log sb.0 s' m'))
      where
        started :
            (r : Run D F A)
            → Returns r
            → Returns (io_error_unless_ok e r (write_snapshot_locked e log))
        started none k = k
        started (some (st, t)) k = elim (Bool-cases (is_ok st)) [
          | inl q ↦ rw q (write_snapshot_locked-Returns log t k)
          | inr q ↦ rw q k
        ]

    reset_old-Returns : (old : MetaLog) (r : Run D F A) → Returns r → Returns (reset_old e old r)
    unfolding release_log
    reset_old-Returns old none k = k
    reset_old-Returns old (some (st, t)) k = elim (Bool-cases (is_ok st)) [
      | inl q ↦ rw q (same_log t _ refl refl k)
      | inr q ↦ rw q (same_log t _ refl refl k)
    ]

    roll_to-Returns :
        (i : ℕ) (s : ZenFs D F A)
        → IsMounted s
        → i < length s.zbd.meta_zones
        → Returns (roll_to e i s)
    unfolding roll_to
    roll_to-Returns i s m inside =
        let (z, at) = lt-get_elem? s.zbd.meta_zones i inside in
        let log = new_meta_log (e.platform).block_size z i in
        let s' = record s { meta_log = some log } in
        let m' : IsMounted s' = record {
          log = log;
          has_log = refl;
          superblock = m.superblock;
          has_superblock = m.has_superblock;
        } in
        rw (m.has_log, at)
          (reset_old-Returns m.log (and_then (end_old_log e m.log s') (start_new_log e log)) (
            and_then-Returns (end_old_log e m.log s') (start_new_log e log)
              (end_old_log-Returns m.log s' m') (start_new_log-Returns log)))

    roll_meta_zone_locked-Returns :
        (s : ZenFs D F A) → IsMounted s → Returns (roll_meta_zone_locked e s)
    unfolding roll_meta_zone_locked allocate_meta_zone
    roll_meta_zone_locked-Returns s m =
        zone_found (allocate_meta_zone e.platform s.zbd)
          (allocate_meta_zone_from-Inside e.platform (length s.zbd.meta_zones) 0 s.zbd)
      where
        zone_found :
            (r : Status × Option ℕ × Zbd D F) → Inside e.platform r → Returns (rolled e s r)
        zone_found (st, none, zbd') k = elim (Bool-cases (is_ok st)) [
          | inr q ↦ rw q (same_log s _ refl refl m)
          | inl q ↦ rw q (same_log s _ refl refl m)
        ]
        zone_found (st, some i, zbd') k = elim (Bool-cases (is_ok st)) [
          | inr q ↦ rw q (same_log s _ refl refl m)
          | inl q ↦ rw q (roll_to-Returns i (record s { zbd = zbd' }) (same_log s _ refl refl m) k)
        ]

    pub persist_record-Returns :
        (body : List ℕ) (s : ZenFs D F A) → IsMounted s → Returns (persist_record e body s)
    unfolding persist_record
    persist_record-Returns body s m =
        subst (λ o. Returns (persist_to e body s o)) (sym m.has_log)
          (added (add_to_log e m.log body s) (add_to_log-Returns m.log body s m))
      where
        added : (r : Run D F A) → Returns r → Returns (roll_if_full e r)
        added none k = k
        added (some (st, t)) k = elim (Bool-cases (is_no_space st)) [
          | inl q ↦ rw q (roll_meta_zone_locked-Returns t k)
          | inr q ↦ rw q k
        ]

    pub sync_file_metadata_no_lock-Returns :
        (replace : Bool) (h : ℕ) (f : ZoneFile) (s : ZenFs D F A)
        → get_elem? s.store h ≡ some f
        → IsMounted s
        → Returns (sync_file_metadata_no_lock e replace h s)
    unfolding sync_file_metadata_no_lock
    sync_file_metadata_no_lock-Returns replace h f s at m =
        let t = stamp e replace h f s in
        subst (λ o. Returns (sync_found e replace h s o)) (sym at)
          (either f.is_deleted (some (ok, s))
            (object_synced e h (persist_record e (encode_file_record e.coding replace t.0) t.1)) m
            (marked (persist_record e (encode_file_record e.coding replace t.0) t.1) (
              persist_record-Returns (encode_file_record e.coding replace t.0) t.1
                (stamped replace))))
      where
        either :
            (b : Bool) (r r' : Run D F A) → Returns r → Returns r' → Returns (if b then r else r')
        either true r r' k k' = k
        either false r r' k k' = k'

        stamped : (replace : Bool) → IsMounted (stamp e replace h f s).1
        stamped true = m
        stamped false = same_log s _ refl refl m

        marked : (r : Run D F A) → Returns r → Returns (object_synced e h r)
        marked none k = k
        marked (some (st, t)) k = elim (Bool-cases (is_ok st)) [
          | inl q ↦ rw q (same_log t _ refl refl k)
          | inr q ↦ rw q k
        ]
