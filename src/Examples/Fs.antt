-- ===== src/Examples/Fs.antt =====
-- Examples of the theorems on `ZenFS`.
use zenfs.Base.{
  ℕ, zero, suc, ◌≡◌, refl, true, false, none, some, Option, List, [], ◌∷◌, ◌++◌, arith, get_elem?,
}
use zenfs.Status.{Status, ok, not_found}
use zenfs.Coding.Sample.{sample_coding, sample_laws}
use zenfs.File.{FileName, ZoneFile, new_file, name_eq}
use zenfs.File.Links.{times, times-append}
use zenfs.Fs.{Target, Env, ZenFs, find_file, insert_file, put_object}
use zenfs.Fs.Names.{delete_file_no_lock, rename_object, link_object}
use zenfs.Fs.Names.Keeps.{links_of}
use zenfs.Fs.Names.Consistent.{Consistent, lookup, link-Consistent}
use zenfs.Fs.Tag
use zenfs.Fs.Log.{encode_file_deletion}
use zenfs.Fs.Replay.{replay_record}
use zenfs.Fs.Replay.Deletion.{Replayed, replay_record-encode_file_deletion}
use zenfs.Superblock.{new_superblock}
use zenfs.Examples.Sample.{platform, zbd, zone_at}

-- Nothing is below; a change there is counted.
abbrev target : Target ℕ
target = record {
  delete_file = λ a n. (not_found, a);
  rename_file = λ a n m. (not_found, a);
  link_file = λ a n m. (not_found, a);
  file_exists = λ a n. not_found;
  num_file_links = λ a n. (not_found, 0);
  are_files_same = λ a n m. (not_found, false);
  get_children = λ a n. (not_found, []);
  is_directory = λ a n. (not_found, false);
  delete_dir = λ a n. (not_found, a);
  create_dir_if_missing = λ a n. (ok, a);
  open_for_read = λ a n. (not_found, a);
  get_file_size = λ a n. (not_found, 0);
  get_file_modification_time = λ a n. (not_found, 0);
}

-- Every path is in its normal form.
abbrev env : Env ℕ ℕ ℕ
env = record {
  coding = sample_coding;
  platform = platform;
  target = target;
  paths = record { lexically_normal = λ p. p; join = λ p q. q; parent_path = λ p. [] };
  time = λ a. (a, suc a);
  memory = λ i. 0;
}

-- Two metadata zones; the log is in the first.
abbrev nameless : ZenFs ℕ ℕ ℕ
nameless = record {
  zbd = record zbd { meta_zones = zone_at 16384 512 0 1 ∷ zone_at 20480 0 0 1 ∷ [] };
  store = new_file 1 ∷ new_file 2 ∷ [];
  files = [];
  held = [];
  next_file_id = 3;
  meta_log = some (record { read_pos = 16384; zone = 0; bs = 512 });
  superblock = some (new_superblock platform [] [] [] 10 true);
  run_gc_worker = false;
  aux = 0;
}

nameless-known :
    (h : ℕ) (ns : List FileName) (n : FileName)
    → get_elem? (links_of nameless.store) h ≡ some ns
    → times n ns ≡ 0
unfolding new_file
nameless-known zero ns n e = ground (arith, e)
nameless-known (suc zero) ns n e = ground (arith, e)
nameless-known (suc (suc h)) ns n e = absurd (cc)

nameless-Consistent : Consistent nameless
unfolding find_file
nameless-Consistent = record {
  agrees = record { known = nameless-known; there = λ h n e. absurd (cc) };
}

abbrev name_a : FileName
name_a = 47 ∷ 97 ∷ []

abbrev name_b : FileName
name_b = 47 ∷ 98 ∷ []

abbrev name_c : FileName
name_c = 47 ∷ 99 ∷ []

-- One more name for a file.
abbrev named : FileName → ℕ → ZoneFile → ZenFs ℕ ℕ ℕ → ZenFs ℕ ℕ ℕ
named name h f s =
    put_object h (record f { linkfiles = f.linkfiles ++ name ∷ [] })
      (record s { files = insert_file name h s.files })

named-Consistent :
    (name : FileName) (h : ℕ) (f : ZoneFile) (s : ZenFs ℕ ℕ ℕ)
    → Consistent s
    → get_elem? s.store h ≡ some f
    → lookup s name ≡ none
    → Consistent (named name h f s)
named-Consistent name h f s c at absent =
    link-Consistent s name h f (record f { linkfiles = f.linkfiles ++ name ∷ [] }) c at absent
      (λ n. omega (arith, times-append n f.linkfiles (name ∷ [])))

abbrev one_name : ZenFs ℕ ℕ ℕ
one_name = named name_a 0 (new_file 1) nameless

-- The names `/a` and `/b`, for the two files.
abbrev two_names : ZenFs ℕ ℕ ℕ
two_names = named name_b 1 (new_file 2) one_name

two_names-Consistent : Consistent two_names
unfolding find_file insert_file name_eq new_file
two_names-Consistent =
    named-Consistent name_b 1 (new_file 2) one_name
      (named-Consistent name_a 0 (new_file 1) nameless nameless-Consistent refl refl) refl refl

a_found : lookup two_names name_a ≡ some 0
unfolding find_file insert_file name_eq
a_found = refl

first_object : get_elem? two_names.store 0 ≡ some (record (new_file 1) { linkfiles = name_a ∷ [] })
unfolding new_file
first_object = refl

replay_record-encode_file_deletion_example :
    (body : List ℕ) × (sample_coding.get_fixed32 (
        encode_file_deletion sample_coding (record (new_file 1) { linkfiles = name_a ∷ [] }) name_a)
      ≡ some (Tag.file_deletion, body))
    × Replayed env sample_laws name_a 0
        (record (new_file 1) { linkfiles = name_a ∷ [] })
        two_names
        two_names-Consistent
        a_found
        first_object
        (replay_record env 9 Tag.file_deletion body two_names)
unfolding new_file
replay_record-encode_file_deletion_example =
    replay_record-encode_file_deletion env sample_laws name_a 0
      (record (new_file 1) { linkfiles = name_a ∷ [] }) two_names two_names-Consistent a_found
      first_object 9 (omega arith) (omega arith) (omega arith)

-- The calls of the examples return with a good status.
status_of : Option (Status × ZenFs ℕ ℕ ℕ) → Option Status
status_of none = none
status_of (some (st, t)) = some st

deletes : status_of (delete_file_no_lock env name_a two_names) ≡ some ok
unfolding delete_file_no_lock status_of new_file
deletes = refl

renames : status_of (rename_object env name_a name_b 0 two_names) ≡ some ok
unfolding rename_object status_of new_file
renames = refl

links : status_of (link_object env name_c 1 two_names) ≡ some ok
unfolding link_object status_of new_file
links = refl
