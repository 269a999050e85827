-- ===== src/DurableFile/Replacing/LeftoversTests.antt =====
-- A disk where a temporary file is made only if there is none yet.
use gouterstellar_platform.Base.{
  ◌⊎◌, Result, ok, err, ℕ, ◌≡◌, refl, sym, ◌∙◌, ◌≢◌, Option, none, some, [],
}
use gouterstellar_platform.Text.{Bytes, codes, text_eq}
use gouterstellar_platform.DurableFile.Replacing.{
  System, exists, write_reader, validate, validate_path_and_directory_mode,
  create_parent_directories, missing_directories, fill_temporary, closing_and_removing, removing,
  commit, check, proceed, write_temporary,
}
use gouterstellar_platform.DurableFile.Replacing.Outcomes.{IsSystem}
use gouterstellar_platform.DurableFile.Replacing.Frame.{IsFramed}
use gouterstellar_platform.DurableFile.Replacing.Leftovers.{IsStuck, write_reader_keeps}
use gouterstellar_platform.DurableFile.Replacing.Tests.{
  Disk, set_file, set_same, set_other, temporary, target, temporary_ne, disk_system, disk-IsSystem,
  start, parent_of,
}

abbrev make_temporary : Disk → Option Bytes → Result ℕ Bytes × Disk
make_temporary s none = (ok temporary, set_file s temporary (some []))
make_temporary s (some _) = (err 9, s)

-- A removal fails where there is no file.
abbrev remove_file : Disk → Bytes → Option Bytes → Result ℕ (Unit {0}) × Disk
remove_file s f none = (err 2, s)
remove_file s f (some _) = (ok tt, set_file s f none)

-- Its writes fail.
abbrev careful_system : System Disk ℕ Bytes
careful_system = record disk_system {
  create_temp = λ s d. make_temporary s (s temporary);
  copy = λ s f r. (err 4, set_file s f (some []));
  remove = λ s f. remove_file s f (s f);
}

made_keeps :
    (s : Disk) (v : Option Bytes) (p : Bytes)
    → ((t : Bytes) → (make_temporary s v).0 ≡ ok t → t ≢ p)
    → (make_temporary s v).1 p ≡ s p
made_keeps s none p n = set_other s temporary p (some []) (n temporary refl)
made_keeps s (some d) p n = refl

made_empty :
    (s : Disk) (v : Option Bytes) (t : Bytes)
    → (make_temporary s v).0 ≡ ok t
    → (make_temporary s v).1 t ≡ some []
made_empty s none t e = cc (set_same s temporary (some []), e)
made_empty s (some d) t e = cc e

made_new :
    (s : Disk) (v : Option Bytes) (t : Bytes)
    → s temporary ≡ v
    → (make_temporary s v).0 ≡ ok t
    → s t ≡ none
made_new s none t h e = cc (h, e)
made_new s (some d) t h e = cc e

made_apart : (s : Disk) (v : Option Bytes) (t : Bytes) → (make_temporary s v).0 ≡ ok t → t ≢ target
made_apart s none t e f = temporary_ne (cc (e, f))
made_apart s (some d) t e f = cc e

removed_keeps : (s : Disk) (v : Option Bytes) (f p : Bytes) → f ≢ p → (remove_file s f v).1 p ≡ s p
removed_keeps s none f p n = refl
removed_keeps s (some d) f p n = set_other s f p none n

removed_gone :
    (s : Disk) (v : Option Bytes) (f : Bytes)
    → (remove_file s f v).0 ≡ ok tt
    → (remove_file s f v).1 f ≡ none
removed_gone s none f e = cc e
removed_gone s (some d) f e = set_same s f none

not_removed :
    (s : Disk) (v : Option Bytes) (f : Bytes) (x : ℕ)
    → (remove_file s f v).0 ≡ err x
    → (remove_file s f v).1 f ≡ s f
not_removed s none f x e = refl
not_removed s (some d) f x e = cc e

careful-IsSystem : IsSystem careful_system (λ s. s) (λ r. r)
careful-IsSystem =
    let disk = disk-IsSystem (λ p. exists) (err 5) in
    record {
      mkdir_all-keeps = disk.mkdir_all-keeps;
      create_temp-keeps = λ s d p n. made_keeps s (s temporary) p n;
      create_temp-empty = λ s d t e. made_empty s (s temporary) t e;
      chmod-keeps = disk.chmod-keeps;
      copy-keeps = λ s f r p n. set_other s f p (some []) n;
      copy-fills = λ s f r h e. cc e;
      open_file-keeps = disk.open_file-keeps;
      sync_file-keeps = disk.sync_file-keeps;
      close_file-keeps = disk.close_file-keeps;
      remove-keeps = λ s f p n. removed_keeps s (s f) f p n;
      replace_file-fails = disk.replace_file-fails;
      replace_file-moves = disk.replace_file-moves;
      sync_dir-keeps = disk.sync_dir-keeps;
    }

careful-IsFramed : IsFramed careful_system (λ s. s)
careful-IsFramed = record {
  create_temp-new = λ s d t e. made_new s (s temporary) t refl e;
  replace_file-keeps =
      λ s a b p f g. set_other (set_file s a none) b p (s a) g ∙ set_other s a p none f;
  replace_file-empties =
      λ s a b ne e. set_other (set_file s a none) b a (s a) (λ q. ne (sym q)) ∙ set_same s a none;
  remove-removes = λ s f e. removed_gone s (s f) f e;
  remove-fails = λ s f e h. not_removed s (s f) f e h;
}

write_fails :
    (write_reader careful_system start target (some (codes "new")) 0o600 0o700).0
    ≡ err (write_temporary 4)
unfolding write_reader validate validate_path_and_directory_mode create_parent_directories
    missing_directories fill_temporary closing_and_removing removing commit check proceed set_file
    text_eq parent_of
write_fails = refl

temporary_other : target ≢ temporary
temporary_other e = temporary_ne (sym e)

-- The temporary file is removed after the failed write.
write_reader_keeps_example :
    let s = (write_reader careful_system start target (some (codes "new")) 0o600 0o700).1 in
    (s temporary ≡ start temporary)
    ⊎ ((start temporary ≡ none) × IsStuck careful_system (λ s. s) temporary s)
write_reader_keeps_example =
    write_reader_keeps careful_system (λ s. s) (λ r. r) careful-IsSystem careful-IsFramed start
      target (codes "new") 0o600 0o700 temporary (λ s d t e. made_apart s (s temporary) t e)
      temporary_other
