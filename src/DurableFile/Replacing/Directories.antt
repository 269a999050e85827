-- ===== src/DurableFile/Replacing/Directories.antt =====
-- The exported functions of durablefile/durablefile.go, over `syncDirectory` of durablefile/syncdir.go and
-- durablefile/syncdir_windows.go.
use gouterstellar_platform.Base.{Result, ok, err, ℕ, Option, some}
use gouterstellar_platform.Text.{Bytes}
use gouterstellar_platform.DurableFile.Replacing.Defs.{System, WriteError, write_reader, replace}

-- What syncdir.go calls of package os, with handles `H`, and `errors.Join` of two errors.
pub record Directories (S E H : Type 0) : Type 0 where
  pub open_directory : S → Bytes → Result E H × S
  pub sync_handle : S → H → Result E (Unit {0}) × S
  pub close_handle : S → H → Result E (Unit {0}) × S
  pub join : E → E → E

module _ {S E H : Type 0} (directories : Directories S E H) where
  unfoldable pub joined : Result E (Unit {0}) → Result E (Unit {0}) → Result E (Unit {0})
  joined (ok _) closed = closed
  joined (err e) (ok _) = err e
  joined (err e) (err e') = err (directories.join e e')

  -- The sync of an open directory, and the deferred closing.
  unfoldable pub sync_and_close : Result E H × S → Result E (Unit {0}) × S
  sync_and_close (err e, s) = (err e, s)
  sync_and_close (ok h, s) =
      let (synced, s') = directories.sync_handle s h in
      let (closed, s'') = directories.close_handle s' h in (joined synced closed, s'')

  unfoldable pub sync_directory : S → Bytes → Result E (Unit {0}) × S
  sync_directory s path = sync_and_close (directories.open_directory s path)

-- `syncDirectory` on Windows.
unfoldable pub sync_directory_windows : {S E : Type 0} → S → Bytes → Result E (Unit {0}) × S
sync_directory_windows s path = (ok tt, s)

module _ {S E R H : Type 0} (sys : System S E R) (directories : Directories S E H) where
  -- The operating system with the function's own way to sync a directory.
  abbrev pub syncing : System S E R
  syncing = record sys { sync_dir = sync_directory directories }

  -- `WriteReader`, `Write` and `Replace`. `reader_of` is `bytes.NewReader`.
  unfoldable pub write_from : S → Bytes → Option R → ℕ → ℕ → Result (WriteError E) (Unit {0}) × S
  write_from s path reader file_mode directory_mode =
      write_reader syncing s path reader file_mode directory_mode

  unfoldable pub write :
      (Bytes → R) → S → Bytes → Bytes → ℕ → ℕ → Result (WriteError E) (Unit {0}) × S
  write reader_of s path contents file_mode directory_mode =
      write_from s path (some (reader_of contents)) file_mode directory_mode

  unfoldable pub replace_synced : S → Bytes → Bytes → ℕ → Result (WriteError E) (Unit {0}) × S
  replace_synced s source destination directory_mode =
      replace syncing s source destination directory_mode
