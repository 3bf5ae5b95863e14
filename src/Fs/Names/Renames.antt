-- ===== src/Fs/Names/Renames.antt =====
-- `RenameFileNoLock` (fs/fs_zenfs.cc) on the names of files.
use zenfs.Base.{
  ℕ, ◌+◌, ◌≡◌, refl, sym, ap, subst, ◌∙◌, ◌⊎◌, inl, inr, true, false, Option, none, some, List, [],
  ◌∷◌, ◌++◌, arith, get_elem?, get_elem?-set_self, set-set, if◌then◌else◌, Bool-cases,
}
use zenfs.Status.{Status, is_ok}
use zenfs.File.{FileName, ZoneFile, name_eq, add_link_name}
use zenfs.File.Links.{
  times, one_if, times-append, name_eq→≡, name_eq_refl, rename_link-remove_link_name,
}
use zenfs.Zone.Valid.{WritesSome}
use zenfs.Fs.Log.Returns.{IsMounted, same_log}
use zenfs.Fs.{Env, ZenFs, Run, put_object, find_file, erase_file, insert_file}
use zenfs.Fs.Log.{sync_file_metadata_no_lock}
use zenfs.Fs.Names.{take_back, renamed, move_object}
use zenfs.Fs.Names.Maps.{find-erase, find-insert}
use zenfs.Fs.Names.Keeps.{Keeps}
use zenfs.Fs.Names.Consistent.{
  Consistent, lookup, Outcome, found-object, keeps-Consistent, unlink-Consistent, link-Consistent,
  sync-Outcome,
}

module _ {D F A : Type 0} where
  -- What the map has for a name, once `source` has been renamed to `dest`.
  abbrev pub moved_to : FileName → FileName → ℕ → ZenFs D F A → FileName → Option ℕ
  moved_to source dest h s n =
      if name_eq dest n then some h else if name_eq source n then none else lookup s n

  -- The map and the object with the name changed.
  abbrev pub moved : FileName → FileName → ℕ → ZoneFile → ZenFs D F A → ZenFs D F A
  moved source dest h g s =
      put_object h g (record s { files = insert_file dest h (erase_file source s.files) })

  module _ (source dest : FileName) (h : ℕ) (s : ZenFs D F A) (found : lookup s source ≡ some h)
      (absent : lookup s dest ≡ none) where
    moved_absent : find_file dest (erase_file source s.files) ≡ none
    moved_absent = elim (Bool-cases (name_eq source dest)) [
      | inl q ↦ rw (find-erase source dest s.files, q) refl
      | inr q ↦ rw (find-erase source dest s.files, q) absent
    ]

    moved-lookup :
        (n : FileName)
        → find_file n (insert_file dest h (erase_file source s.files)) ≡ moved_to source dest h s n
    moved-lookup n =
        find-insert dest n h (erase_file source s.files) moved_absent
        ∙ ap (λ o. if name_eq dest n then some h else o) (find-erase source n s.files)

    moved-Consistent :
        (f : ZoneFile) (l : List FileName)
        → Consistent s
        → get_elem? s.store h ≡ some f
        → ((n : FileName) → times n f.linkfiles ≡ one_if source n + times n l)
        → Consistent (moved source dest h (add_link_name dest (record f { linkfiles = l })) s)
    unfolding add_link_name
    moved-Consistent f l c at erased =
        let f' = record f { linkfiles = l } in
        let u = put_object h f' (record s { files = erase_file source s.files }) in
        let cu = unlink-Consistent s source h f f' c at found erased in
        let g = record f' { linkfiles = l ++ dest ∷ [] } in
        subst
          (λ st.
            Consistent
              (record s { files = insert_file dest h (erase_file source s.files); store = st }))
          (set-set s.store h f' g)
          (link-Consistent u dest h f' g cu (get_elem?-set_self s.store h f f' at) moved_absent
            (λ n. omega (arith, times-append n l (dest ∷ []))))

  -- After a rename: the name is moved, or, if the move could not be written, it is back.
  pub record Moved (source dest : FileName) (h : ℕ) (s : ZenFs D F A) (st : Status)
      (t : ZenFs D F A) : Type 0 where
    pub consistent : Consistent t
    pub good : is_ok st ≡ true
    pub names :
        ((n : FileName) → lookup t n ≡ moved_to source dest h s n)
        ⊎ ((n : FileName) → lookup t n ≡ lookup s n)

  module _ (e : Env D F A) (w : WritesSome (e.platform).backend) (source dest : FileName) (h : ℕ)
      (s : ZenFs D F A) (c : Consistent s) (m : IsMounted s) (found : lookup s source ≡ some h)
      (absent : lookup s dest ≡ none) where
    -- The state in which the rename is written, and what the writing leaves.
    module _ (t : ZenFs D F A) (ct : Consistent t)
        (names : (n : FileName) → lookup t n ≡ moved_to source dest h s n) where
      back : (n : FileName) → moved_to dest source h t n ≡ lookup s n
      back n = elim (Bool-cases (name_eq source n)) [
        | inl q ↦ rw (q, ← name_eq→≡ source n q) (sym found)
        | inr q ↦ elim (Bool-cases (name_eq dest n)) [
          | inl r ↦ rw (q, r, ← name_eq→≡ dest n r) (sym absent)
          | inr r ↦ rw (q, r) (names n ∙ rw (r, q) refl)
        ]
      ]

      apart : name_eq dest source ≡ false
      apart = elim (Bool-cases (name_eq dest source)) [
        | inr q ↦ q
        | inl q ↦
            let bad : some h ≡ none =
              (sym found ∙ ap (lookup s) (sym (name_eq→≡ dest source q)) ∙ absent) in
            absurd (cc)
      ]

      at_dest : lookup t dest ≡ some h
      at_dest = names dest ∙ rw (name_eq_refl dest) refl

      not_at_source : lookup t source ≡ none
      not_at_source = names source ∙ rw (apart, name_eq_refl source) refl

      take_back-Moved :
          (g : ZoneFile)
          → get_elem? t.store h ≡ some g
          → Outcome e (Moved source dest h s) (take_back e h source dest t (some g))
      take_back-Moved g at = elim (rename_link-remove_link_name g dest source) [
        | inl (zero_times, _, _) ↦
            let (f, there, once) = found-object t dest h ct at_dest in
            let same : f ≡ g = ground (arith, there, at) in
            absurd (ground (arith, once, zero_times, same))
        | inr (l, _, taken, _, erased, _) ↦ rw taken (record {
          consistent = moved-Consistent dest source h t at_dest not_at_source g l ct at erased;
          good = refl;
          names = inr (λ n. moved-lookup dest source h t at_dest not_at_source n ∙ back n);
        })
      ]

    module _ (f : ZoneFile) (l : List FileName) (at : get_elem? s.store h ≡ some f)
        (erased : (n : FileName) → times n f.linkfiles ≡ one_if source n + times n l) where
      abbrev written : ZenFs D F A
      written = moved source dest h (add_link_name dest (record f { linkfiles = l })) s

      renamed-Moved :
          (r : Run D F A)
          → Outcome e (λ st t. Keeps written t × IsMounted t) r
          → Outcome e (Moved source dest h s) (renamed e h source dest r)
      renamed-Moved none k = k
      renamed-Moved (some (st, t)) (k, mounted) =
          let cw = moved-Consistent source dest h s found absent f l c at erased in
          let ct = keeps-Consistent written t k cw in
          let names = λ (n : FileName).
            ap (find_file n) k.same_files ∙ moved-lookup source dest h s found absent n in
          elim (Bool-cases (is_ok st)) [
            | inl good ↦ rw good (record { consistent = ct; good = good; names = inl names })
            | inr bad ↦
                let (g, there, once) = found-object t dest h ct (at_dest t ct names) in
                rw (bad, there) (take_back-Moved t ct names g there)
          ]

    -- `RenameFileNoLock` to a name that is free.
    pub move_object-Moved : Outcome e (Moved source dest h s) (move_object e source dest h s)
    unfolding move_object
    move_object-Moved =
        let (f, at, once) = found-object s source h c found in
        rw at (elim (rename_link-remove_link_name f source dest) [
          | inl (zero_times, _, _) ↦ absurd (ground (arith, once, zero_times))
          | inr (l, _, taken, _, erased, _) ↦
              let u = written f l at erased in
              rw taken (
                renamed-Moved f l at erased (sync_file_metadata_no_lock e false h u) (
                  sync-Outcome e w false h (add_link_name dest (record f { linkfiles = l })) u
                    (get_elem?-set_self s.store h f _ at) (same_log s u refl refl m)))
        ])
