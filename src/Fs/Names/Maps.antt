-- ===== src/Fs/Names/Maps.antt =====
-- The map `files_` of `ZenFS` (fs/fs_zenfs.h) and the names that the objects keep of themselves.
use zenfs.Base.{
  ℕ, ◌+◌, ◌<◌, ◌≡◌, ◌≢◌, refl, sym, ap, ◌∙◌, ◌⊎◌, inl, inr, true, false, Option, none, some, List,
  [], ◌∷◌, arith, length, get_elem?, set, get_elem?-set_self, get_elem?-set_ne, get_elem?-lt,
  length-set, if◌then◌else◌, ◌==◌, Bool-cases,
}
use zenfs.File.{FileName, name_eq}
use zenfs.File.Links.{times, one_if, name_eq→≡, name_eq_refl}
use zenfs.Fs.{name_lt, find_file, erase_file, insert_file}

abbrev pub Files : Type 0
Files = List (FileName × ℕ)

-- The names of each object.
abbrev pub Links : Type 0
Links = List (List FileName)

pub find-erase :
    (name n : FileName) (m : Files)
    → find_file n (erase_file name m) ≡ (if name_eq name n then none else find_file n m)
unfolding find_file erase_file
find-erase name n [] = elim (Bool-cases (name_eq name n)) [ inl q ↦ rw q refl | inr q ↦ rw q refl ]
find-erase name n ((k, h) ∷ m) = elim (Bool-cases (name_eq k name)) [
  | inl e ↦
      rw (e, find-erase name n m, name_eq→≡ k name e)
        (elim (Bool-cases (name_eq name n)) [ inl q ↦ rw q refl | inr q ↦ rw q refl ])
  | inr e ↦ elim (Bool-cases (name_eq k n)) [
    | inl q ↦
        let far : name_eq name n ≡ false = (elim (Bool-cases (name_eq name n)) [
          | inr f ↦ f
          | inl f ↦
              let same : name_eq k name ≡ true =
                (rw (name_eq→≡ k n q, name_eq→≡ name n f) (name_eq_refl n)) in
              absurd (cc)
        ]) in
        rw (e, q, far) refl
    | inr q ↦ rw (e, q) (find-erase name n m)
  ]
]

pub find-insert_ne :
    (name n : FileName) (h : ℕ) (m : Files)
    → name_eq name n ≡ false
    → find_file n (insert_file name h m) ≡ find_file n m
unfolding find_file insert_file
find-insert_ne name n h [] ne = rw ne refl
find-insert_ne name n h ((k, j) ∷ m) ne = elim (Bool-cases (name_eq k name)) [
  | inl e ↦ rw e refl
  | inr e ↦ elim (Bool-cases (name_lt name k)) [
    | inl lt ↦ rw (e, lt) (rw ne refl)
    | inr ge ↦ rw (e, ge) (rw (find-insert_ne name n h m ne) refl)
  ]
]

pub find-insert_self :
    (name : FileName) (h : ℕ) (m : Files)
    → find_file name m ≡ none
    → find_file name (insert_file name h m) ≡ some h
unfolding find_file insert_file
find-insert_self name h [] e = rw (name_eq_refl name) refl
find-insert_self name h ((k, j) ∷ m) e = elim (Bool-cases (name_eq k name)) [
  | inl q ↦ let bad : some j ≡ none = sym (rw q refl) ∙ e in absurd (cc)
  | inr q ↦
      let rest : find_file name m ≡ none = sym (rw q refl) ∙ e in
      elim (Bool-cases (name_lt name k)) [
        | inl lt ↦ rw (q, lt) (rw (name_eq_refl name) refl)
        | inr ge ↦ rw (q, ge) (rw (q, find-insert_self name h m rest) refl)
      ]
]

pub find-insert :
    (name n : FileName) (h : ℕ) (m : Files)
    → find_file name m ≡ none
    → find_file n (insert_file name h m) ≡ (if name_eq name n then some h else find_file n m)
find-insert name n h m e = elim (Bool-cases (name_eq name n)) [
  | inl q ↦ rw (q, ← name_eq→≡ name n q) (find-insert_self name h m e)
  | inr q ↦ rw q (find-insert_ne name n h m q)
]

-- 1 if the map has the object `h` under the name `n`.
abbrev pub points_to : ℕ → Option ℕ → ℕ
points_to h none = 0
points_to h (some k) = if k == h then 1 else 0

-- Each object knows exactly the names under which the map has it, each once, and the map has no other
-- objects.
pub record Agrees (files : Files) (links : Links) : Type 0 where
  pub known :
      (h : ℕ) (ns : List FileName) (n : FileName)
      → get_elem? links h ≡ some ns
      → times n ns ≡ points_to h (find_file n files)
  pub there : (h : ℕ) (n : FileName) → find_file n files ≡ some h → h < length links

-- What stands in a list after a write.
get-set :
    {A : Type 0} (l : List A) (h k : ℕ) (u v w : A)
    → get_elem? l h ≡ some u
    → get_elem? (set l h v) k ≡ some w
    → ((k ≡ h) × (w ≡ v)) ⊎ ((k ≢ h) × (get_elem? l k ≡ some w))
get-set l h k u v w at e = elim (Bool-cases (k == h)) [
  | inl q ↦
      let same : k ≡ h = ground arith in
      let r : some w ≡ some v =
        (sym e ∙ ap (get_elem? (set l h v)) same ∙ get_elem?-set_self l h u v at) in
      inl (same, ground arith)
  | inr q ↦
      let other : k ≢ h = λ c. ground arith in
      inr (other, sym (get_elem?-set_ne l h k v (λ c. other (sym c))) ∙ e)
]

pub points_to_self : (h : ℕ) → points_to h (some h) ≡ 1
points_to_self h = ground arith

points_to_other : (h k : ℕ) → k ≢ h → points_to k (some h) ≡ 0
points_to_other h k ne = elim (Bool-cases (h == k)) [
  | inl q ↦ let same : h ≡ k = ground arith in absurd (ne (sym same))
  | inr q ↦ rw q refl
]

one_if_eq : (a b : FileName) → name_eq a b ≡ true → one_if a b ≡ 1
one_if_eq a b e = rw e refl

one_if_ne : (a b : FileName) → name_eq a b ≡ false → one_if a b ≡ 0
one_if_ne a b e = rw e refl

module _ {files : Files} {links : Links} (agrees : Agrees files links) (name : FileName) (h : ℕ)
    (ns ns' : List FileName) (at : get_elem? links h ≡ some ns) where
  -- A name goes out of the map and out of its object.
  pub unlink-Agrees :
      find_file name files ≡ some h
      → ((n : FileName) → times n ns ≡ one_if name n + times n ns')
      → Agrees (erase_file name files) (set links h ns')
  unlink-Agrees found erased = record {
    known = λ k ms n at'. elim (Bool-cases (name_eq name n)) [
      | inl q ↦
          let here : find_file n files ≡ some h = rw (← name_eq→≡ name n q) found in
          rw (find-erase name n files, q)
            (elim (get-set links h k ns ns' ms at at') [
              | inl (same, eq) ↦
                  let old : times n ns ≡ 1 =
                    agrees.known h ns n at ∙ ap (points_to h) here ∙ points_to_self h in
                  rw eq (omega (arith, old, erased n, one_if_eq name n q))
              | inr (other, at'') ↦
                  agrees.known k ms n at'' ∙ ap (points_to k) here ∙ points_to_other h k other
            ])
      | inr q ↦
          rw (find-erase name n files, q)
            (elim (get-set links h k ns ns' ms at at') [
              | inl (same, eq) ↦
                  rw (eq, same)
                    (omega (arith, erased n, one_if_ne name n q) ∙ agrees.known h ns n at)
              | inr (other, at'') ↦ agrees.known k ms n at''
            ])
    ];
    there = λ k n f. elim (Bool-cases (name_eq name n)) [
      | inl q ↦
          let bad : none ≡ some k = sym (rw (find-erase name n files, q) refl) ∙ f in absurd (cc)
      | inr q ↦
          rw (length-set links h ns')
            (agrees.there k n (sym (rw (find-erase name n files, q) refl) ∙ f))
    ];
  }

  -- A name that the map does not have goes into it and into an object.
  pub link-Agrees :
      find_file name files ≡ none
      → ((n : FileName) → times n ns' ≡ times n ns + one_if name n)
      → Agrees (insert_file name h files) (set links h ns')
  link-Agrees absent added = record {
    known = λ k ms n at'. elim (Bool-cases (name_eq name n)) [
      | inl q ↦
          let here : find_file n files ≡ none = rw (← name_eq→≡ name n q) absent in
          rw (find-insert name n h files absent, q)
            (elim (get-set links h k ns ns' ms at at') [
              | inl (same, eq) ↦
                  let old : times n ns ≡ 0 = agrees.known h ns n at ∙ ap (points_to h) here in
                  rw (eq, same, points_to_self h) (omega (arith, old, added n, one_if_eq name n q))
              | inr (other, at'') ↦
                  agrees.known k ms n at'' ∙ ap (points_to k) here ∙ sym (points_to_other h k other)
            ])
      | inr q ↦
          rw (find-insert name n h files absent, q)
            (elim (get-set links h k ns ns' ms at at') [
              | inl (same, eq) ↦
                  rw (eq, same)
                    (omega (arith, added n, one_if_ne name n q) ∙ agrees.known h ns n at)
              | inr (other, at'') ↦ agrees.known k ms n at''
            ])
    ];
    there = λ k n f. rw (length-set links h ns') (elim (Bool-cases (name_eq name n)) [
      | inl q ↦
          let r : some h ≡ some k = sym (rw (find-insert name n h files absent, q) refl) ∙ f in
          let same : h ≡ k = ground arith in rw (← same) (get_elem?-lt links h ns at)
      | inr q ↦ agrees.there k n (sym (rw (find-insert name n h files absent, q) refl) ∙ f)
    ]);
  }
