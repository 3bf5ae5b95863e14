-- ===== src/Fs/Names/Consistent.antt =====
-- The names of files and the names that objects keep, in the operations of `ZenFS` (fs/fs_zenfs.cc):
-- what the proofs for the single operations share.
use zenfs.Base.{
  ℕ, ◌+◌, ◌≡◌, refl, sym, ap, subst, ◌∙◌, inl, inr, Bool, Option, none, some, get_elem?,
  lt-get_elem?, Bool-cases,
}
use zenfs.Status.{Status}
use zenfs.File.{FileName, ZoneFile, name_eq}
use zenfs.File.Links.{times, one_if, name_eq→≡, name_eq_refl}
use zenfs.Fs.{
  Env, ZenFs, Run, put_object, find_file, erase_file, insert_file, drop_after, let_go_after,
  format_path, get_file_no_lock,
}
use zenfs.Zone.Valid.{WritesSome}
use zenfs.Fs.Log.{sync_file_metadata_no_lock}
use zenfs.Fs.Log.Returns.{IsMounted, Returns, sync_file_metadata_no_lock-Returns}
use zenfs.Fs.Names.Maps.{
  Agrees, points_to, points_to_self, find-erase, find-insert, unlink-Agrees, link-Agrees,
}
use zenfs.Fs.Names.Keeps.{
  links_of, get-links_of, links_of-set, links_of-set_same, Keeps, drop_reference-Keeps,
  let_go-Keeps, get-links_of_inv, Kept, sync_file_metadata_no_lock-Kept,
}

module _ {D F A : Type 0} where
  -- The map has an object under exactly the names that the object knows.
  pub record Consistent (s : ZenFs D F A) : Type 0 where
    pub agrees : Agrees s.files (links_of s.store)

  -- The object that a name stands for.
  abbrev pub lookup : ZenFs D F A → FileName → Option ℕ
  lookup s n = find_file n s.files

  pub keeps-Consistent : (s t : ZenFs D F A) → Keeps s t → Consistent s → Consistent t
  keeps-Consistent s t k c = record {
    agrees =
        subst (λ l. Agrees t.files l) (sym k.same_links)
          (subst (λ m. Agrees m (links_of s.store)) (sym k.same_files) c.agrees);
  }

  pub found-object :
      (s : ZenFs D F A) (n : FileName) (h : ℕ)
      → Consistent s
      → lookup s n ≡ some h
      → (f : ZoneFile) × (get_elem? s.store h ≡ some f) × (times n f.linkfiles ≡ 1)
  found-object s n h c found =
      let (ns, at) = lt-get_elem? (links_of s.store) h ((c.agrees).there h n found) in
      let (f, there, same) = get-links_of_inv s.store h ns at in
      (
        f,
        there,
        ap (times n) same
            ∙ ((c.agrees).known h ns n at ∙ ap (points_to h) found ∙ points_to_self h),
      )

  module _ (s : ZenFs D F A) (name : FileName) (h : ℕ) (f g : ZoneFile) (c : Consistent s)
      (at : get_elem? s.store h ≡ some f) where
    pub unlink-Consistent :
        lookup s name ≡ some h
        → ((n : FileName) → times n f.linkfiles ≡ one_if name n + times n g.linkfiles)
        → Consistent (put_object h g (record s { files = erase_file name s.files }))
    unlink-Consistent found erased = record {
      agrees = subst (Agrees (erase_file name s.files)) (sym (links_of-set s.store h g)) (
          unlink-Agrees (c.agrees) name h f.linkfiles g.linkfiles (get-links_of s.store h f at)
            found erased);
    }

    pub link-Consistent :
        lookup s name ≡ none
        → ((n : FileName) → times n g.linkfiles ≡ times n f.linkfiles + one_if name n)
        → Consistent (put_object h g (record s { files = insert_file name h s.files }))
    link-Consistent absent added = record {
      agrees = subst (Agrees (insert_file name h s.files)) (sym (links_of-set s.store h g)) (
          link-Agrees (c.agrees) name h f.linkfiles g.linkfiles (get-links_of s.store h f at) absent
            added);
    }

    pub same-Consistent : g.linkfiles ≡ f.linkfiles → Consistent (put_object h g s)
    same-Consistent same = record {
      agrees = subst (Agrees s.files) (sym (links_of-set_same s.store h f g at same)) c.agrees;
    }

  -- Taking a name out and putting it back in.
  pub find-insert-erase :
      (name n : FileName) (h : ℕ) (s : ZenFs D F A)
      → lookup s name ≡ some h
      → find_file n (insert_file name h (erase_file name s.files)) ≡ lookup s n
  find-insert-erase name n h s found =
      let gone : find_file name (erase_file name s.files) ≡ none =
        (rw (find-erase name name s.files, name_eq_refl name) refl) in
      elim (Bool-cases (name_eq name n)) [
        | inl q ↦
            rw (find-insert name n h (erase_file name s.files) gone, q, ← name_eq→≡ name n q)
              (sym found)
        | inr q ↦
            rw
              (find-insert name n h (erase_file name s.files) gone, q, find-erase name n s.files, q)
              refl
      ]

  pub erased_absent :
      (name : FileName) (s : ZenFs D F A) → find_file name (erase_file name s.files) ≡ none
  erased_absent name s = rw (find-erase name name s.files, name_eq_refl name) refl

  module _ (e : Env D F A) where
    -- What holds of the status and the state that a call returns with. It does return.
    abbrev pub Outcome : (Status → ZenFs D F A → Type 0) → Run D F A → Type 0
    Outcome Q none = ⊥
    Outcome Q (some (st, t)) = Q st t

    -- The end of a local reference.
    module _ (Q : Status → ZenFs D F A → Type 0)
        (stable : (st : Status) (t u : ZenFs D F A) → Keeps t u → Q st t → Q st u) (h : ℕ) where
      pub drop_after-Outcome : (r : Run D F A) → Outcome Q r → Outcome Q (drop_after h r)
      drop_after-Outcome none o = o
      drop_after-Outcome (some (st, t)) o = stable st t _ (drop_reference-Keeps h t) o

      pub let_go_after-Outcome : (r : Run D F A) → Outcome Q r → Outcome Q (let_go_after h r)
      let_go_after-Outcome none o = o
      let_go_after-Outcome (some (st, t)) o = stable st t _ (let_go-Keeps h t) o

    -- A call that returns and keeps the names.
    pub keeps-Outcome :
        (s : ZenFs D F A) (r : Run D F A)
        → Returns r
        → Kept s r
        → Outcome (λ st t. Keeps s t × IsMounted t) r
    keeps-Outcome s none m k = m
    keeps-Outcome s (some (st, t)) m k = (k, m)

    -- `SyncFileMetadataNoLock` of an object keeps the names.
    pub sync-Outcome :
        WritesSome (e.platform).backend
        → (replace : Bool) (h : ℕ) (f : ZoneFile) (s : ZenFs D F A) → get_elem? s.store h ≡ some f
        → IsMounted s
        → Outcome (λ st t. Keeps s t × IsMounted t) (sync_file_metadata_no_lock e replace h s)
    sync-Outcome w replace h f s at m =
        keeps-Outcome s (sync_file_metadata_no_lock e replace h s)
          (sync_file_metadata_no_lock-Returns e w replace h f s at m)
          (sync_file_metadata_no_lock-Kept e replace h s)

  pub get_file-normal :
      (e : Env D F A) (name : FileName) (s : ZenFs D F A)
      → format_path e name ≡ name
      → get_file_no_lock e name s ≡ lookup s name
  unfolding get_file_no_lock
  get_file-normal e name s normal = ap (λ n. find_file n s.files) normal
