-- ===== src/Fs/Replay/Deletion.antt =====
-- The deletion record of `EncodeFileDeletionTo`, read back by `RecoverFrom` (fs/fs_zenfs.cc).
use zenfs.Base.{
  ℕ, ◌<◌, ◌≡◌, refl, sym, ap, subst, ◌∙◌, inl, inr, true, none, some, List, [], ◌++◌, arith, length,
  get_elem?, if◌then◌else◌, ◌==◌,
}
use mathlib.Core.List.{append-nil}
use zenfs.Base.Words.{u32, u64}
use zenfs.Status.{ok}
use zenfs.Coding.{Coding, CodingLaws}
use zenfs.File.{FileName, ZoneFile, name_eq}
use zenfs.File.Links.{rename_link-remove_link_name}
use zenfs.Fs.Tag
use zenfs.Fs.{Env, ZenFs, Run, put_object, find_file, erase_file, drop_reference}
use zenfs.Fs.Log.{encode_file_deletion}
use zenfs.Fs.Replay.{replay_deletion, decode_file_deletion_from, replay_record}
use zenfs.Fs.Names.Maps.{find-erase}
use zenfs.Fs.Names.Keeps.{drop_reference-Keeps}
use zenfs.Fs.Names.Consistent.{
  Consistent, lookup, found-object, keeps-Consistent, unlink-Consistent,
}

-- What follows the id: the name.
abbrev deletion_body : Coding → ZoneFile → FileName → List ℕ
deletion_body c f name = c.put_fixed64 f.file_id ++ c.put_length_prefixed_slice name

module _ {D F A : Type 0} (e : Env D F A) (laws : CodingLaws (e.coding)) (name : FileName) (h : ℕ)
    (f : ZoneFile) (s : ZenFs D F A) (c : Consistent s) (found : lookup s name ≡ some h)
    (at : get_elem? s.store h ≡ some f) where
  -- The name goes out of the map and out of the object.
  pub record Replayed (r : Run D F A) : Type 0 where
    pub after : ZenFs D F A
    pub returned : r ≡ some (ok, after)
    pub consistent : Consistent after
    pub names : (n : FileName) → lookup after n ≡ (if name_eq name n then none else lookup s n)

  replay_deletion-Replayed : Replayed (replay_deletion e f.file_id name s)
  unfolding replay_deletion
  replay_deletion-Replayed =
      let same : (f.file_id == f.file_id) ≡ true = ground arith in
      let (g, there, once) = found-object s name h c found in
      let eq : g ≡ f = ground (arith, there, at) in
      elim (rename_link-remove_link_name f name name) [
        | inl (zero_times, _, _) ↦ absurd (ground (arith, once, zero_times, eq))
        | inr (l, _, _, removed, erased, _) ↦
            let t =
              put_object h (record f { linkfiles = l })
                (record s { files = erase_file name s.files }) in
            let ct = unlink-Consistent s name h f (record f { linkfiles = l }) c at found erased in
            let k = drop_reference-Keeps h t in
            record {
              after = drop_reference h t;
              returned = rw (replay_deletion, found, at, same, removed) refl;
              consistent = keeps-Consistent t (drop_reference h t) k ct;
              names = λ n. ap (find_file n) k.same_files ∙ find-erase name n s.files;
            }
      ]

  slice_alone :
      (body : List ℕ)
      → length body < u32
      → (e.coding).get_length_prefixed_slice ((e.coding).put_length_prefixed_slice body)
        ≡ some (body, [])
  slice_alone body short =
      ap (e.coding).get_length_prefixed_slice
        (sym (append-nil ((e.coding).put_length_prefixed_slice body)))
      ∙ laws.get-put_slice body [] short

  decode_file_deletion_from-replay :
      length name < u32
      → f.file_id < u64
      → decode_file_deletion_from e (deletion_body e.coding f name) s
        ≡ replay_deletion e f.file_id name s
  unfolding decode_file_deletion_from
  decode_file_deletion_from-replay short id_lt =
      rw
        (
          decode_file_deletion_from,
          laws.get-put_fixed64 f.file_id ((e.coding).put_length_prefixed_slice name) id_lt,
          slice_alone name short,
        )
        refl

  -- What `RecoverFrom` reads in the deletion record of the object `h` for one of its names has the tag
  -- of a deletion; its replay succeeds, takes exactly this name out of the map, and leaves map and
  -- objects in agreement on the names. Names and records have lengths of 32 bits, ids have 64 bits, and
  -- the coding has its laws.
  pub replay_record-encode_file_deletion :
      (fuel : ℕ)
      → length name < u32
      → length (deletion_body e.coding f name) < u32
      → f.file_id < u64
      → (body : List ℕ) × ((e.coding).get_fixed32 (encode_file_deletion e.coding f name)
          ≡ some (Tag.file_deletion, body))
        × Replayed (replay_record e fuel Tag.file_deletion body s)
  unfolding encode_file_deletion replay_record
  replay_record-encode_file_deletion fuel short body_short id_lt =
      let inner = deletion_body e.coding f name in
      let body = (e.coding).put_length_prefixed_slice inner in
      let run : replay_record e fuel Tag.file_deletion body s ≡ replay_deletion e f.file_id name s =
        (rw (replay_record, slice_alone inner body_short)
          (decode_file_deletion_from-replay short id_lt)) in
      (
        body,
        laws.get-put_fixed32 Tag.file_deletion body (omega arith),
        subst Replayed (sym run) replay_deletion-Replayed,
      )
