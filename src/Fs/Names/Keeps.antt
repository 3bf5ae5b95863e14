-- ===== src/Fs/Names/Keeps.antt =====
-- What the writing of records (fs/fs_zenfs.cc) leaves as it is: the map of files and the names of the
-- objects.
use zenfs.Base.{
  ℕ, zero, suc, ◌≡◌, refl, ap, ◌∙◌, inl, inr, Bool, true, false, Option, none, some, List, [], ◌∷◌,
  get_elem?, set, set-get_elem?, arith, ◌||◌, if◌then◌else◌, ◌==◌, Bool-cases, Option-cases,
}
use zenfs.Status.{Status, ok, is_ok}
use zenfs.Device.State.{Zbd, meta, reset_at}
use zenfs.Zone.{Zone}
use zenfs.Device.Alloc.{allocate_meta_zone}
use zenfs.MetaLog.{MetaLog, new_meta_log, add_record}
use zenfs.File.{FileName, ZoneFile, clear_extents, metadata_synced}
use zenfs.Superblock.{encode_super}
use zenfs.Fs.Tag
use zenfs.Fs.{Env, ZenFs, Run, and_then, handles, drop_reference, let_go, member, remove_one}
use zenfs.Fs.Log.{
  add_to_log, sync_object, sync_objects, synced, encode_snapshot_to, capacity_left, whatever,
  finish_log_zone, io_error_unless_ok, reset_old, rolled, roll_if_full, stamp, object_synced,
  is_no_space, swap_logs, persist_to, sync_found, write_snapshot_locked, write_end_record,
  end_old_log, start_new_log, release_log, roll_to, roll_meta_zone_locked, persist_record,
  encode_file_record, sync_file_metadata_no_lock,
}
use zenfs.Fs.Names.Maps.{Links}

abbrev pub links_of : List ZoneFile → Links
links_of [] = []
links_of (f ∷ fs) = f.linkfiles ∷ links_of fs

pub get-links_of :
    (l : List ZoneFile) (h : ℕ) (f : ZoneFile)
    → get_elem? l h ≡ some f
    → get_elem? (links_of l) h ≡ some f.linkfiles
get-links_of [] h f e = absurd (cc)
get-links_of (x ∷ l) zero f e = ground (arith, e)
get-links_of (x ∷ l) (suc h) f e = get-links_of l h f e

pub links_of-set :
    (l : List ZoneFile) (h : ℕ) (f : ZoneFile)
    → links_of (set l h f) ≡ set (links_of l) h f.linkfiles
links_of-set [] h f = refl
links_of-set (x ∷ l) zero f = refl
links_of-set (x ∷ l) (suc h) f = ap (◌∷◌ x.linkfiles) (links_of-set l h f)

pub get-links_of_inv :
    (l : List ZoneFile) (h : ℕ) (ns : List FileName)
    → get_elem? (links_of l) h ≡ some ns
    → (f : ZoneFile) × (get_elem? l h ≡ some f) × (f.linkfiles ≡ ns)
get-links_of_inv [] h ns e = absurd (cc)
get-links_of_inv (x ∷ l) zero ns e = (x, refl, ground (arith, e))
get-links_of_inv (x ∷ l) (suc h) ns e = get-links_of_inv l h ns e

-- A write that does not change the names of an object.
pub links_of-set_same :
    (l : List ZoneFile) (h : ℕ) (f g : ZoneFile)
    → get_elem? l h ≡ some f
    → g.linkfiles ≡ f.linkfiles
    → links_of (set l h g) ≡ links_of l
links_of-set_same l h f g at e =
    links_of-set l h g
    ∙ ap (set (links_of l) h) e
    ∙ set-get_elem? (links_of l) h f.linkfiles (get-links_of l h f at)

module _ {D F A : Type 0} where
  pub record Keeps (s t : ZenFs D F A) : Type 0 where
    pub same_files : t.files ≡ s.files
    pub same_links : links_of t.store ≡ links_of s.store

  abbrev pub keeps_refl : (s : ZenFs D F A) → Keeps s s
  keeps_refl s = record { same_files = refl; same_links = refl }

  pub keeps_trans : (s t u : ZenFs D F A) → Keeps s t → Keeps t u → Keeps s u
  keeps_trans s t u k l = record {
    same_files = l.same_files ∙ k.same_files;
    same_links = l.same_links ∙ k.same_links;
  }

  -- A call that may return keeps the names.
  abbrev pub Kept : ZenFs D F A → Run D F A → Type 0
  Kept s none = Unit
  Kept s (some (st, t)) = Keeps s t

  pub Kept-trans : (s t : ZenFs D F A) (r : Run D F A) → Keeps s t → Kept t r → Kept s r
  Kept-trans s t none k l = tt
  Kept-trans s t (some (st, u)) k l = keeps_trans s t u k l

  pub and_then-Kept :
      (s : ZenFs D F A) (r : Run D F A) (k : ZenFs D F A → Run D F A)
      → Kept s r
      → ((t : ZenFs D F A) → Kept t (k t))
      → Kept s (and_then r k)
  and_then-Kept s none k a b = tt
  and_then-Kept s (some (st, t)) k a b = elim (Bool-cases (is_ok st)) [
    | inl e ↦ rw e (Kept-trans s t (k t) a (b t))
    | inr e ↦ rw e a
  ]

  pub if-Kept :
      (s : ZenFs D F A) (b : Bool) (r r' : Run D F A)
      → Kept s r
      → Kept s r'
      → Kept s (if b then r else r')
  if-Kept s true r r' k l = k
  if-Kept s false r r' k l = l

  pub drop_reference-Keeps : (h : ℕ) (s : ZenFs D F A) → Keeps s (drop_reference h s)
  unfolding drop_reference clear_extents
  drop_reference-Keeps h s = elim (Bool-cases (member h (handles s.files) || member h s.held)) [
    | inl e ↦ rw e (keeps_refl s)
    | inr e ↦ elim (Option-cases (get_elem? s.store h)) [
      | inl n ↦ rw (e, n) (keeps_refl s)
      | inr (f, at) ↦
          rw (e, at)
            (record { same_files = refl; same_links = links_of-set_same s.store h f _ at refl })
    ]
  ]

  pub let_go-Keeps : (h : ℕ) (s : ZenFs D F A) → Keeps s (let_go h s)
  unfolding let_go
  let_go-Keeps h s =
      let t = record s { held = remove_one h s.held } in
      let k = drop_reference-Keeps h t in
      record { same_files = k.same_files; same_links = k.same_links }

sync_object-links :
    (h : ℕ) (store : List ZoneFile)
    → links_of (sync_object h (get_elem? store h) store) ≡ links_of store
unfolding metadata_synced
sync_object-links h store = elim (Option-cases (get_elem? store h)) [
  | inl n ↦ rw n refl
  | inr (f, at) ↦ rw at (links_of-set_same store h f _ at refl)
]

sync_objects-links :
    (hs : List ℕ) (store : List ZoneFile) → links_of (sync_objects hs store) ≡ links_of store
unfolding sync_objects
sync_objects-links [] store = refl
sync_objects-links (h ∷ hs) store =
    sync_objects-links hs (sync_object h (get_elem? store h) store) ∙ sync_object-links h store

module _ {D F A : Type 0} (e : Env D F A) where
  add_to_log-Kept :
      (log : MetaLog) (body : List ℕ) (s : ZenFs D F A) → Kept s (add_to_log e log body s)
  unfolding add_to_log
  add_to_log-Kept log body s = elim (Option-cases (add_record e.coding e.platform log body s.zbd)) [
    | inl n ↦ rw n tt
    | inr ((st, zbd'), q) ↦ rw q (record { same_files = refl; same_links = refl })
  ]

  write_snapshot_locked-Kept :
      (log : MetaLog) (s : ZenFs D F A) → Kept s (write_snapshot_locked e log s)
  unfolding write_snapshot_locked
  write_snapshot_locked-Kept log s =
      synced_lem (add_to_log e log (encode_snapshot_to e.coding s.store s.files) s)
        (add_to_log-Kept log (encode_snapshot_to e.coding s.store s.files) s)
    where
      synced_lem : (r : Run D F A) → Kept s r → Kept s (synced e r)
      synced_lem none k = tt
      synced_lem (some (st, t)) k = elim (Bool-cases (is_ok st)) [
        | inl q ↦ rw q (record {
          same_files = k.same_files;
          same_links = sync_objects-links (handles t.files) t.store ∙ k.same_links;
        })
        | inr q ↦ rw q k
      ]

  release_log-Keeps : (log : MetaLog) (s : ZenFs D F A) → Keeps s (release_log e log s)
  unfolding release_log
  release_log-Keeps log s = record { same_files = refl; same_links = refl }

  end_old_log-Kept : (old : MetaLog) (s : ZenFs D F A) → Kept s (end_old_log e old s)
  unfolding end_old_log write_end_record
  end_old_log-Kept old s = elim (Bool-cases (capacity_left e old s == 0)) [
    | inl q ↦ rw q (keeps_refl s)
    | inr q ↦ rw q (
        ended (add_to_log e old ((e.coding).put_fixed32 Tag.end_record) s)
          (add_to_log-Kept old ((e.coding).put_fixed32 Tag.end_record) s))
  ]
    where
      ended :
          (r : Run D F A)
          → Kept s r
          → Kept s (whatever e r (λ t. some (ok, finish_log_zone e old t)))
      ended none k = tt
      ended (some (st, t)) k = elim (Bool-cases (capacity_left e old t == 0)) [
        | inl q ↦ rw q k
        | inr q ↦ rw q (record { same_files = k.same_files; same_links = k.same_links })
      ]

  start_new_log-Kept : (log : MetaLog) (s : ZenFs D F A) → Kept s (start_new_log e log s)
  unfolding start_new_log
  start_new_log-Kept log s = elim (Option-cases s.superblock) [
    | inl n ↦ rw n tt
    | inr (sb, q) ↦
        let s' = record s { superblock = some (encode_super e.coding sb).1 } in
        rw q (
          Kept-trans _ s' _ (record { same_files = refl; same_links = refl })
            (started s' (add_to_log e log (encode_super e.coding sb).0 s')
              (add_to_log-Kept log (encode_super e.coding sb).0 s')))
  ]
    where
      started :
          (s' : ZenFs D F A) (r : Run D F A)
          → Kept s' r
          → Kept s' (io_error_unless_ok e r (write_snapshot_locked e log))
      started s' none k = tt
      started s' (some (st, t)) k = elim (Bool-cases (is_ok st)) [
        | inl q ↦ rw q (Kept-trans s' t _ k (write_snapshot_locked-Kept log t))
        | inr q ↦ rw q k
      ]

  reset_old-Kept :
      (s : ZenFs D F A) (old : MetaLog) (r : Run D F A) → Kept s r → Kept s (reset_old e old r)
  reset_old-Kept s old none k = tt
  reset_old-Kept s old (some (st, t)) k = elim (Bool-cases (is_ok st)) [
    | inl q ↦
        let t' = record t { zbd = (reset_at e.platform (meta old.zone) t.zbd).1 } in
        rw q (
          keeps_trans s t' (release_log e old t')
            (record { same_files = k.same_files; same_links = k.same_links })
            (release_log-Keeps old t'))
    | inr q ↦ rw q (keeps_trans s t (release_log e old t) k (release_log-Keeps old t))
  ]

  swap_logs-Kept :
      (i : ℕ) (s : ZenFs D F A) (old : Option MetaLog) (new_zone : Option Zone)
      → Kept s (swap_logs e i s old new_zone)
  swap_logs-Kept i s none new_zone = tt
  swap_logs-Kept i s (some old) none = tt
  swap_logs-Kept i s (some old) (some z) =
      let log = new_meta_log (e.platform).block_size z i in
      let s' = record s { meta_log = some log } in
      let rest = and_then (end_old_log e old s') (start_new_log e log) in
      Kept-trans s s' (reset_old e old rest) (record { same_files = refl; same_links = refl })
        (reset_old-Kept s' old rest (
          and_then-Kept s' (end_old_log e old s') (start_new_log e log) (end_old_log-Kept old s')
            (start_new_log-Kept log)))

  roll_to-Kept : (i : ℕ) (s : ZenFs D F A) → Kept s (roll_to e i s)
  unfolding roll_to
  roll_to-Kept i s = swap_logs-Kept i s s.meta_log (get_elem? s.zbd.meta_zones i)

  roll_meta_zone_locked-Kept : (s : ZenFs D F A) → Kept s (roll_meta_zone_locked e s)
  unfolding roll_meta_zone_locked
  roll_meta_zone_locked-Kept s = zone_found (allocate_meta_zone e.platform s.zbd)
    where
      zone_found : (r : Status × Option ℕ × Zbd D F) → Kept s (rolled e s r)
      zone_found (st, zone, zbd') = elim (Bool-cases (is_ok st)) [
        | inr q ↦ rw q (record { same_files = refl; same_links = refl })
        | inl q ↦ elim (Option-cases zone) [
          | inl n ↦ rw (q, n) (record { same_files = refl; same_links = refl })
          | inr (i, n) ↦
              rw (q, n)
                (Kept-trans s (record s { zbd = zbd' }) _
                  (record { same_files = refl; same_links = refl })
                  (roll_to-Kept i (record s { zbd = zbd' })))
        ]
      ]

  pub persist_record-Kept : (body : List ℕ) (s : ZenFs D F A) → Kept s (persist_record e body s)
  unfolding persist_record
  persist_record-Kept body s = written s.meta_log
    where
      added : (r : Run D F A) → Kept s r → Kept s (roll_if_full e r)
      added none k = tt
      added (some (st, t)) k = elim (Bool-cases (is_no_space st)) [
        | inl q ↦ rw q (Kept-trans s t _ k (roll_meta_zone_locked-Kept t))
        | inr q ↦ rw q k
      ]

      written : (o : Option MetaLog) → Kept s (persist_to e body s o)
      written none = tt
      written (some log) = added (add_to_log e log body s) (add_to_log-Kept log body s)

  pub sync_file_metadata_no_lock-Kept :
      (replace : Bool) (h : ℕ) (s : ZenFs D F A) → Kept s (sync_file_metadata_no_lock e replace h s)
  unfolding sync_file_metadata_no_lock
  sync_file_metadata_no_lock-Kept replace h s = found (get_elem? s.store h) refl
    where
      stamped :
          (replace : Bool) (f : ZoneFile)
          → get_elem? s.store h ≡ some f
          → Keeps s (stamp e replace h f s).1
      stamped true f at = keeps_refl s
      stamped false f at = record {
        same_files = refl;
        same_links = links_of-set_same s.store h f _ at refl;
      }

      marked : (t : ZenFs D F A) (r : Run D F A) → Kept t r → Kept t (object_synced e h r)
      marked t none k = tt
      marked t (some (st, u)) k = elim (Bool-cases (is_ok st)) [
        | inl q ↦ rw q (record {
          same_files = k.same_files;
          same_links = sync_object-links h u.store ∙ k.same_links;
        })
        | inr q ↦ rw q k
      ]

      found : (o : Option ZoneFile) → get_elem? s.store h ≡ o → Kept s (sync_found e replace h s o)
      found none at = tt
      found (some f) at =
          let t = stamp e replace h f s in
          let run = persist_record e (encode_file_record e.coding replace t.0) t.1 in
          if-Kept s f.is_deleted (some (ok, s)) (object_synced e h run) (keeps_refl s) (
            Kept-trans s t.1 (object_synced e h run) (stamped replace f at)
              (marked t.1 run (persist_record-Kept (encode_file_record e.coding replace t.0) t.1)))
