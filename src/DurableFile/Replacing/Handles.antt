-- ===== src/DurableFile/Replacing/Handles.antt =====
-- What `syncDirectory` leaves, and `Write` over it.
use gouterstellar_platform.Base.{
  if◌then◌else◌, Result, ok, err, ℕ, ◌≡◌, refl, ap, ◌∙◌, ◌≢◌, Option, some, List, ◌∷◌,
}
use gouterstellar_platform.Text.{Bytes}
use gouterstellar_platform.DurableFile.Replacing.Defs.{System}
use gouterstellar_platform.DurableFile.Replacing.Directories.{
  Directories, sync_and_close, sync_directory, syncing, write, write_from,
}
use gouterstellar_platform.DurableFile.Replacing.Outcomes.{IsSystem, is_visible}
use gouterstellar_platform.DurableFile.Replacing.Atomic.{write_reader_whole}

-- What package os documents: an open directory has a handle until it is closed, whether the closing
-- reports an error or not, and none of the calls changes a file.
pub record IsDirectories {S E H : Type 0} (directories : Directories S E H) (opened : S → List H)
    (content : S → Bytes → Option Bytes) : Type 0 where
  pub open-opens :
      (s s' : S) (path : Bytes) (h : H)
      → directories.open_directory s path ≡ (ok h, s')
      → opened s' ≡ h ∷ opened s
  pub open-fails :
      (s s' : S) (path : Bytes) (e : E)
      → directories.open_directory s path ≡ (err e, s')
      → opened s' ≡ opened s
  pub sync-opened : (s : S) (h : H) → opened (directories.sync_handle s h).1 ≡ opened s
  pub close-closes :
      (s : S) (h : H) (hs : List H)
      → opened s ≡ h ∷ hs
      → opened (directories.close_handle s h).1 ≡ hs
  pub open-keeps :
      (s : S) (path p : Bytes) → content (directories.open_directory s path).1 p ≡ content s p
  pub sync-keeps :
      (s : S) (h : H) (p : Bytes) → content (directories.sync_handle s h).1 p ≡ content s p
  pub close-keeps :
      (s : S) (h : H) (p : Bytes) → content (directories.close_handle s h).1 p ≡ content s p

module _ {S E H : Type 0} (directories : Directories S E H) (opened : S → List H)
    (content : S → Bytes → Option Bytes) (lawful : IsDirectories directories opened content) where
  sync_and_close_lem :
      (s : S) (path : Bytes) (q : Result E H × S)
      → directories.open_directory s path ≡ q
      → opened (sync_and_close directories q).1 ≡ opened s
  unfolding sync_and_close
  sync_and_close_lem s path (err e, s') h = lawful.open-fails s s' path e h
  sync_and_close_lem s path (ok handle, s') h =
      lawful.close-closes (directories.sync_handle s' handle).1 handle (opened s)
        (lawful.sync-opened s' handle ∙ lawful.open-opens s s' path handle h)

  sync_and_close-keeps :
      (p : Bytes) (v : Option Bytes) (q : Result E H × S)
      → content q.1 p ≡ v
      → content (sync_and_close directories q).1 p ≡ v
  unfolding sync_and_close
  sync_and_close-keeps p v (err e, s) k = k
  sync_and_close-keeps p v (ok h, s) k =
      lawful.close-keeps (directories.sync_handle s h).1 h p ∙ lawful.sync-keeps s h p ∙ k

  -- `syncDirectory` leaves no handle open, whichever call fails, and changes no file.
  pub sync_directory_lem :
      (s : S) (path p : Bytes)
      → let s' = (sync_directory directories s path).1 in
        (opened s' ≡ opened s) × (content s' p ≡ content s p)
  unfolding sync_directory
  sync_directory_lem s path p = (
    sync_and_close_lem s path _ refl,
    sync_and_close-keeps p (content s p) _ (lawful.open-keeps s path p),
  )

  -- An operating system whose directories are synced this way keeps its laws.
  pub syncing-IsSystem :
      {R : Type 0} (sys : System S E R) (text : R → Bytes)
      → IsSystem sys content text
      → IsSystem (syncing sys directories) content text
  syncing-IsSystem sys text laws = record {
    mkdir_all-keeps = laws.mkdir_all-keeps;
    create_temp-keeps = laws.create_temp-keeps;
    create_temp-empty = laws.create_temp-empty;
    chmod-keeps = laws.chmod-keeps;
    copy-keeps = laws.copy-keeps;
    copy-fills = laws.copy-fills;
    open_file-keeps = laws.open_file-keeps;
    sync_file-keeps = laws.sync_file-keeps;
    close_file-keeps = laws.close_file-keeps;
    remove-keeps = laws.remove-keeps;
    replace_file-fails = laws.replace_file-fails;
    replace_file-moves = laws.replace_file-moves;
    sync_dir-keeps = λ s d p. (sync_directory_lem s d p).1;
  }

  -- After `Write` the destination holds what it held before, or all of the data; the second exactly
  -- when the result is a success or a committed error.
  pub write_whole :
      {R : Type 0} (sys : System S E R) (text : R → Bytes) (reader_of : Bytes → R) (s : S)
      (path contents : Bytes) (file_mode directory_mode : ℕ)
      → IsSystem sys content text
      → text (reader_of contents) ≡ contents
      → ((s : S) (d t : Bytes) → (sys.create_temp s d).0 ≡ ok t → t ≢ path)
      → let (result, s') =
          write sys directories reader_of s path contents file_mode directory_mode in
        content s' path ≡ (if is_visible result then some contents else content s path)
  unfolding write write_from
  write_whole sys text reader_of s path contents file_mode directory_mode laws reads apart =
      let whole =
        write_reader_whole (syncing sys directories) content text (syncing-IsSystem sys text laws) s
          path (reader_of contents) file_mode directory_mode apart in
      let result = (write sys directories reader_of s path contents file_mode directory_mode).0 in
      whole ∙ ap (λ d. if is_visible result then some d else content s path) reads
