-- ===== src/DurableFile/Replacing/Tests.antt =====
-- Disks of files by path: one whose directories cannot be synced, and one where only the root exists.
use gouterstellar_platform.Base.{
  if◌then◌else◌, Result, leb, length, inl, inr, Bool-cases, ok, err, ℕ, ◌≡◌, refl, ◌≢◌, Option,
  none, some, [], arith,
}
use gouterstellar_platform.Text.{Bytes, codes, text_eq, text_eq_iff, text_eq_refl, text_ne}
use gouterstellar_platform.DurableFile.Replacing.{
  System, StatResult, committed, exists, not_exist, write_reader, replace, check, proceed, validate,
  validate_path_and_directory_mode, create_parent_directories, missing_directories, fill_temporary,
  closing_and_removing, removing, commit,
}
use gouterstellar_platform.DurableFile.Replacing.Outcomes.{IsSystem, is_visible}
use gouterstellar_platform.DurableFile.Replacing.Atomic.{write_reader_whole}
use gouterstellar_platform.DurableFile.Replacing.Source.{replace_whole}
use gouterstellar_platform.DurableFile.Replacing.Parents.{Walk, IsDir, missing_directories_lem}

abbrev pub Disk : Type 0
Disk = Bytes → Option Bytes

unfoldable pub set_file : Disk → Bytes → Option Bytes → Disk
set_file s p v q = if text_eq p q then v else s q

abbrev pub temporary : Bytes
temporary = codes "/d/.durable-1.tmp"

abbrev pub target : Bytes
target = codes "/d/a"

-- "/" is its own parent.
unfoldable pub parent_of : Bytes → Bytes
parent_of p = if leb (length p) 2 then codes "/" else codes "/d"

abbrev pub disk_over : (Bytes → StatResult ℕ) → Result ℕ (Unit {0}) → System Disk ℕ Bytes
disk_over stat synced = record {
  stat = λ s p. stat p;
  mkdir_all = λ s d m. (ok tt, s);
  create_temp = λ s d. (ok temporary, set_file s temporary (some []));
  chmod = λ s f m. (ok tt, s);
  copy = λ s f r. (ok tt, set_file s f (some r));
  open_file = λ s f. (ok tt, s);
  sync_file = λ s f. (ok tt, s);
  close_file = λ s f. (ok tt, s);
  remove = λ s f. (ok tt, set_file s f none);
  replace_file = λ s a b. (ok tt, set_file (set_file s a none) b (s a));
  sync_dir = λ s d. (synced, s);
  dir = parent_of;
  base = λ p. codes "a";
  clean_abs = λ p. some p;
  clean = λ d. d;
}

abbrev pub disk_system : System Disk ℕ Bytes
disk_system = disk_over (λ p. exists) (err 5)

-- Only "/" exists.
only_root : Bytes → StatResult ℕ
only_root p = if text_eq p (codes "/") then exists else not_exist

abbrev new_disk_system : System Disk ℕ Bytes
new_disk_system = disk_over only_root (ok tt)

pub set_same : (s : Disk) (p : Bytes) (v : Option Bytes) → set_file s p v p ≡ v
unfolding set_file
set_same s p v = ground (arith, text_eq_refl p)

pub set_other : (s : Disk) (p q : Bytes) (v : Option Bytes) → p ≢ q → set_file s p v q ≡ s q
unfolding set_file
set_other s p q v ne = ground (arith, text_eq_iff p q)

set_made :
    (s : Disk) (d t : Bytes)
    → (disk_system.create_temp s d).0 ≡ ok t
    → set_file s temporary (some []) t ≡ some []
set_made s d t e = cc (set_same s temporary (some []), e)

pub disk-IsSystem :
    (stat : Bytes → StatResult ℕ) (synced : Result ℕ (Unit {0}))
    → IsSystem (disk_over stat synced) (λ s. s) (λ r. r)
disk-IsSystem stat synced = record {
  mkdir_all-keeps = λ s d m p. refl;
  create_temp-keeps = λ s d p n. set_other s temporary p (some []) (n temporary refl);
  create_temp-empty = λ s d t e. set_made s d t e;
  chmod-keeps = λ s f m p. refl;
  copy-keeps = λ s f r p n. set_other s f p (some r) n;
  copy-fills = λ s f r h e. set_same s f (some r);
  open_file-keeps = λ s f p. refl;
  sync_file-keeps = λ s f p. refl;
  close_file-keeps = λ s f p. refl;
  remove-keeps = λ s f p n. set_other s f p none n;
  replace_file-fails = λ s a b p e h. cc h;
  replace_file-moves = λ s a b h. set_same (set_file s a none) b (s a);
  sync_dir-keeps = λ s d p. refl;
}

abbrev pub start : Disk
start = set_file (λ p. none) target (some (codes "old"))

wrote :
    (write_reader disk_system start target (some (codes "new")) 0o600 0o700).0 ≡ err (committed 5)
unfolding write_reader validate validate_path_and_directory_mode create_parent_directories
    missing_directories fill_temporary closing_and_removing removing commit check proceed parent_of
    set_file text_eq
wrote = refl

pub temporary_ne : temporary ≢ target
unfolding text_eq
temporary_ne = text_ne _ _ refl

apart : (s : Disk) (d t : Bytes) → (disk_system.create_temp s d).0 ≡ ok t → t ≢ target
apart s d t e f = temporary_ne (cc (e, f))

-- The old content is replaced even so.
write_reader_whole_example :
    let (result, s) = write_reader disk_system start target (some (codes "new")) 0o600 0o700 in
    s target ≡ (if is_visible result then some (codes "new") else start target)
write_reader_whole_example =
    write_reader_whole disk_system (λ s. s) (λ r. r) (disk-IsSystem (λ p. exists) (err 5)) start
      target (codes "new") 0o600 0o700 apart

start_target : start target ≡ some (codes "old")
start_target = set_same (λ p. none) target (some (codes "old"))

replace_whole_example :
    let (result, s) = replace disk_system start target (codes "/d/b") 0o700 in
    s (codes "/d/b") ≡ (if is_visible result then some (codes "old") else start (codes "/d/b"))
replace_whole_example =
    replace_whole disk_system (λ s. s) (λ r. r) (disk-IsSystem (λ p. exists) (err 5)) start target
      (codes "/d/b") (codes "old") 0o700 start_target

pub parent_IsDir : IsDir parent_of
unfolding parent_of
parent_IsDir d = elim (Bool-cases (leb (length d) 2)) [
  | inl e ↦ inr (rw (e) refl)
  | inr e ↦ inl (rw (e) (ground (arith, e)))
]

-- Both "/d/x" and "/d" are missing.
missing_directories_lem_example :
    Walk new_disk_system start
      (codes "/d/x")
      (missing_directories new_disk_system 6 start (codes "/d/x"))
missing_directories_lem_example =
    missing_directories_lem new_disk_system start 6 (codes "/d/x") parent_IsDir (omega arith)
