-- ===== src/File/Links.antt =====
-- The names of a file (fs/io_zenfs.cc).
use zenfs.Base.{
  ℕ, ◌+◌, ◌<◌, ◌≡◌, refl, subst, ◌⊎◌, inl, inr, true, Option, none, some, List, [], ◌∷◌, ◌++◌,
  arith, if◌then◌else◌, Bool-cases, Option-cases,
}
use zenfs.Status.{ok, io_error}
use zenfs.File.{
  ZoneFile, FileName, name_eq, erase_name, add_link_name, rename_link, remove_link_name,
}

-- How often a name stands in a list.
abbrev pub times : FileName → List FileName → ℕ
times n [] = 0
times n (m ∷ ms) = (if name_eq m n then 1 else 0) + times n ms

abbrev pub one_if : FileName → FileName → ℕ
one_if m n = if name_eq m n then 1 else 0

pub times-append : (n : FileName) (l m : List FileName) → times n (l ++ m) ≡ times n l + times n m
times-append n [] m = omega arith
times-append n (x ∷ l) m = omega (arith, times-append n l m)

pub name_eq→≡ : (a b : FileName) → name_eq a b ≡ true → a ≡ b
unfolding name_eq
name_eq→≡ [] [] e = refl
name_eq→≡ [] (y ∷ b) e = absurd (cc)
name_eq→≡ (x ∷ a) [] e = absurd (cc)
name_eq→≡ (x ∷ a) (y ∷ b) e =
    let rest : name_eq a b ≡ true = ground arith in
    let head : x ≡ y = ground arith in rw (head, name_eq→≡ a b rest) refl

pub name_eq_refl : (a : FileName) → name_eq a a ≡ true
unfolding name_eq
name_eq_refl [] = refl
name_eq_refl (x ∷ a) = let r = name_eq_refl a in ground arith

pub one_if_self : (a : FileName) → one_if a a ≡ 1
one_if_self a = rw (name_eq_refl a) refl

-- What is left of a list, once the first occurrence of a name is gone.
abbrev pub Erased : FileName → List FileName → Option (List FileName) → Type 0
Erased name ns none = times name ns ≡ 0
Erased name ns (some l) = (n : FileName) → times n ns ≡ one_if name n + times n l

pub erase_name-Erased : (name : FileName) (ns : List FileName) → Erased name ns (erase_name name ns)
unfolding erase_name
erase_name-Erased name [] = refl
erase_name-Erased name (n ∷ ns) = elim (Bool-cases (name_eq n name)) [
  | inl e ↦ rw e (λ m. rw (name_eq→≡ n name e) refl)
  | inr e ↦ elim (Option-cases (erase_name name ns)) [
    | inl f ↦
        let r = subst (Erased name ns) f (erase_name-Erased name ns) in
        rw (e, f) (rw e (omega arith))
    | inr (l, f) ↦
        let r = subst (Erased name ns) f (erase_name-Erased name ns) in
        rw (e, f) (λ m. let q = r m in omega arith)
  ]
]

module _ (f : ZoneFile) where
  -- `RenameLink` and `RemoveLinkName` fail, and change nothing, exactly if the file does not have the
  -- name. Else they take one occurrence of it away and keep every other name as often as it was; and
  -- `RenameLink` puts the new name in.
  pub rename_link-remove_link_name :
      (src dest : FileName)
      → ((times src f.linkfiles ≡ 0)
          × (rename_link src dest f ≡ (io_error, f))
          × (remove_link_name src f ≡ (io_error, f)))
        ⊎ ((l : List FileName) × (0 < times src f.linkfiles)
            × (rename_link src dest f ≡ (ok, add_link_name dest (record f { linkfiles = l })))
            × (remove_link_name src f ≡ (ok, record f { linkfiles = l }))
            × ((n : FileName) → times n f.linkfiles ≡ one_if src n + times n l)
            × ((n : FileName) → times n (l ++ dest ∷ []) ≡ times n l + one_if dest n))
  unfolding rename_link remove_link_name add_link_name
  rename_link-remove_link_name src dest = elim (Option-cases (erase_name src f.linkfiles)) [
    | inl e ↦
        let r = subst (Erased src f.linkfiles) e (erase_name-Erased src f.linkfiles) in
        inl (r, rw (e, rename_link) refl, rw (e, remove_link_name) refl)
    | inr (l, e) ↦
        let r = subst (Erased src f.linkfiles) e (erase_name-Erased src f.linkfiles) in
        inr (
          l,
          omega (arith, one_if_self src, r src),
          rw (e, rename_link) refl,
          rw (e, remove_link_name) refl,
          r,
          λ n. omega (arith, times-append n l (dest ∷ [])),
        )
  ]
