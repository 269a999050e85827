-- ===== src/DurableFile/Replacing/Success.antt =====
-- `writeReader` where the calls of the operating system succeed.
use gouterstellar_platform.Base.{
  ◌==◌, if◌then◌else◌, ==_iff, ok, All, ℕ, ◌<◌, ◌≡◌, refl, sym, ap, subst, ◌∙◌, ◌≢◌, ◌⊎◌, inl, inr,
  true, Option, some, List, [], ◌∷◌, arith,
}
use gouterstellar_platform.Text.{Bytes, codes, text_eq_iff}
use gouterstellar_platform.Text.Fields.{is_empty_iff}
use gouterstellar_platform.DurableFile.Replacing.Defs.{
  System, stat_error, check, proceed, commit, fill_temporary, closing_and_removing, write_reader,
  validate, validate_path_and_directory_mode, perm, create_temporary,
}
use gouterstellar_platform.DurableFile.Replacing.Outcomes.{IsSystem, is_visible}
use gouterstellar_platform.DurableFile.Replacing.Temporary.{after, fill_temporary-Filled}
use gouterstellar_platform.DurableFile.Replacing.Atomic.{write_reader_whole}
use gouterstellar_platform.DurableFile.Replacing.Parents.{IsDir}
use gouterstellar_platform.DurableFile.Replacing.Healthy.{
  Succeeds, Above, IsHealthy, moved, check-Succeeds, closing-Succeeds,
}
use gouterstellar_platform.DurableFile.Replacing.Parts.{
  Ready, parents_made, commit-Succeeds, fill-dirs, fill-free, fill-Succeeds,
}

-- The arguments that `validate` accepts.
pub record IsTarget {S E R : Type 0} (sys : System S E R) (path : Bytes)
    (file_mode directory_mode : ℕ) : Type 0 where
  pub named : path ≢ []
  pub no_dot : sys.base path ≢ codes "."
  pub file_bits : file_mode < 512
  pub directory_bits : directory_mode < 512

perm_small : (m : ℕ) → m < 512 → (m == perm m) ≡ true
perm_small m h = ground (arith, h, ==_iff m (perm m))

module _ {S E R : Type 0} (sys : System S E R) where
  validate_accepts :
      (path : Bytes) (file_mode directory_mode : ℕ)
      → IsTarget sys path file_mode directory_mode
      → validate sys path file_mode directory_mode ≡ ok tt
  unfolding validate validate_path_and_directory_mode
  validate_accepts path file_mode directory_mode t = ground (
    arith,
    t.named,
    t.no_dot,
    perm_small file_mode t.file_bits,
    perm_small directory_mode t.directory_bits,
    is_empty_iff path,
    text_eq_iff (sys.base path) (codes "."),
  )

All-weaken :
    {A : Type 0} (P Q : A → Type 0) → ((a : A) → P a → Q a) → (xs : List A) → All P xs → All Q xs
All-weaken P Q f [] h = tt
All-weaken P Q f (x ∷ xs) (p, h) = (f x p, All-weaken P Q f xs h)

module _ {S E R : Type 0} (sys : System S E R) (content : S → Bytes → Option Bytes)
    (is_dir is_free is_open : S → Bytes → Type 0) (text : R → Bytes)
    (lawful : IsSystem sys content text) (r : R)
    (healthy : IsHealthy sys content is_dir is_free is_open r) where
  -- The directories of the parent's path are there once `MkdirAll` has succeeded.
  mkdir_all-there :
      (s : S) (parent : Bytes) (mode : ℕ)
      → (sys.mkdir_all s parent mode).0 ≡ ok tt
      → (d : Bytes) → (d ≡ parent) ⊎ Above sys.dir (sys.clean parent) d
      → is_dir (sys.mkdir_all s parent mode).1 d
  mkdir_all-there s parent mode makes d (inl e) =
      subst (is_dir (sys.mkdir_all s parent mode).1) (sym e)
        (healthy.mkdir_all-makes s parent mode makes)
  mkdir_all-there s parent mode makes d (inr a) = healthy.mkdir_all-above s parent mode d makes a

  -- From the creation of the temporary file on.
  temporary-Succeeds :
      (s : S) (path : Bytes) (mode : ℕ) (created : List Bytes) (needed : Bytes → Type 0)
      → ((s : S) (d t : Bytes) → (sys.create_temp s d).0 ≡ ok t → t ≢ path)
      → ((d : Bytes) → needed d → is_dir s d)
      → is_free s path
      → needed (sys.dir path)
      → All (λ c. needed (sys.dir c)) created
      → Succeeds
          (check create_temporary (sys.create_temp s (sys.dir path)) λ temporary s.
            closing_and_removing sys temporary (fill_temporary sys s temporary r mode) λ s.
              commit sys s (record {
                source = temporary;
                destination = path;
                source_directory = sys.dir path;
                destination_dir = sys.dir path;
                created_directories = created;
              })).0
  temporary-Succeeds s path mode created needed apart k free parent above =
      check-Succeeds create_temporary (sys.create_temp s (sys.dir path)) _
        (healthy.creates s (sys.dir path) (k _ parent))
        λ t s₁ e₁.
          let made = ap (λ q. q.0) e₁ in
          let there = Ready sys content is_dir is_free is_open r healthy needed in
          let k₁ =
            moved there _ (ok t) s₁ e₁
              (λ x m. healthy.create_temp-dirs s (sys.dir path) x (k x m)) in
          let free₁ =
            moved (λ s. is_free s path) _ (ok t) s₁ e₁
              (healthy.create_temp-free s (sys.dir path) path free) in
          let open₁ =
            moved (λ s. is_open s t) _ (ok t) s₁ e₁
              (healthy.create_temp-opens s (sys.dir path) t made) in
          let empty =
            after content _ (ok t) s₁ t _ e₁ (lawful.create_temp-empty s (sys.dir path) t made) in
          let work =
            fill_temporary-Filled sys content text lawful s₁ t path r mode (apart s _ t made)
              empty in
          closing-Succeeds sys t (fill_temporary sys s₁ t r mode) _
            (fill-Succeeds sys content is_dir is_free is_open r healthy s₁ t mode open₁)
            λ s₂ e₂.
              commit-Succeeds sys content is_dir is_free is_open r healthy needed s₂ _ (text r)
                (after content _ (ok tt) s₂ t _ e₂ (work.filled (ap (λ q. q.0) e₂)))
                (moved there _ (ok tt) s₂ e₂ (λ x m.
                  fill-dirs sys content is_dir is_free is_open r healthy s₁ t mode x (k₁ x m)))
                parent
                (moved (λ s. is_free s path) _ (ok tt) s₂ e₂
                  (fill-free sys content is_dir is_free is_open r healthy s₁ t mode path free₁))
                parent parent above

  write_reader-Succeeds :
      (s : S) (path : Bytes) (file_mode directory_mode : ℕ)
      → IsDir sys.dir
      → IsTarget sys path file_mode directory_mode
      → ((s : S) (d t : Bytes) → (sys.create_temp s d).0 ≡ ok t → t ≢ path)
      → ((d : Bytes) (e : E)
          → Above sys.dir (sys.clean (sys.dir path)) d
          → sys.stat s d ≢ stat_error e)
      → (sys.mkdir_all s (sys.dir path) directory_mode).0 ≡ ok tt
      → is_free (sys.mkdir_all s (sys.dir path) directory_mode).1 path
      → Succeeds (write_reader sys s path (some r) file_mode directory_mode).0
  unfolding write_reader proceed check
  write_reader-Succeeds s path file_mode directory_mode shorter target apart told makes free =
      let parent = sys.dir path in
      let (missing, run, inside) =
        parents_made sys content is_dir is_free is_open r healthy s parent directory_mode shorter
          told makes in
      rw (validate_accepts sys path file_mode directory_mode target, run, write_reader)
        (temporary-Succeeds (sys.mkdir_all s parent directory_mode).1 path file_mode missing
          (λ d. (d ≡ parent) ⊎ Above sys.dir (sys.clean parent) d) apart
          (mkdir_all-there s parent directory_mode makes) free (inl refl)
          (All-weaken (λ c. Above sys.dir (sys.clean parent) (sys.dir c))
            (λ c. (sys.dir c ≡ parent) ⊎ Above sys.dir (sys.clean parent) (sys.dir c))
            (λ c a. inr a) missing inside))

  -- Where nothing fails, the result is a success and the destination holds all that the reader gives.
  -- Nothing failing is: the arguments are ones that `validate` accepts, `os.Stat` tells of the parent
  -- directory and of those above it whether they exist, `MkdirAll` succeeds for the parent and leaves no
  -- directory at the destination, and each other call succeeds where the condition holds under which
  -- `IsHealthy` says that it does: a temporary file is made in a directory that is there, an open file is
  -- worked on, a file that is there replaces another in a directory that is there, where no directory is
  -- in its way, and a directory that is there is synced. `filepath.Dir` is supposed to be as documented, and
  -- the temporary file to have another path than the destination.
  pub write_reader_completes :
      (s : S) (path : Bytes) (file_mode directory_mode : ℕ)
      → IsDir sys.dir
      → IsTarget sys path file_mode directory_mode
      → ((s : S) (d t : Bytes) → (sys.create_temp s d).0 ≡ ok t → t ≢ path)
      → ((d : Bytes) (e : E)
          → Above sys.dir (sys.clean (sys.dir path)) d
          → sys.stat s d ≢ stat_error e)
      → (sys.mkdir_all s (sys.dir path) directory_mode).0 ≡ ok tt
      → is_free (sys.mkdir_all s (sys.dir path) directory_mode).1 path
      → let (result, s') = write_reader sys s path (some r) file_mode directory_mode in
        (result ≡ ok tt) × (content s' path ≡ some (text r))
  write_reader_completes s path file_mode directory_mode shorter target apart told makes free =
      let (_, done) =
        write_reader-Succeeds s path file_mode directory_mode shorter target apart told makes
          free in
      (
        done,
        write_reader_whole sys content text lawful s path r file_mode directory_mode apart
            ∙ ap (λ q. if is_visible q then some (text r) else content s path) done,
      )
