-- ===== src/DurableFile/Replacing/Defs.antt =====
-- `writeReader`, `replace` and the transaction that both end in, over an operating system whose calls
-- may fail.
use gouterstellar_platform.Base.{
  ◌==◌, if◌then◌else◌, Result, ok, err, ◌>>=◌, ◌>>◌, fail_if, ℕ, ◌%◌, Bool, true, false, not, ◌||◌,
  Option, none, some, List, [], ◌∷◌, length, ◌+◌, zero, suc,
}
use gouterstellar_platform.Text.{Bytes, codes, is_empty, text_eq, contains}

-- What `os.Stat` tells.
pub data StatResult (E : Type 0) : Type 0 where
  exists not_exist : StatResult E
  stat_error : E → StatResult E

-- What the code calls: package os and the library atomic on a state `S`, and package filepath. An
-- open file is named by its path. `R` is a source reader.
pub record System (S E R : Type 0) : Type 0 where
  pub stat : S → Bytes → StatResult E
  pub mkdir_all : S → Bytes → ℕ → Result E (Unit {0}) × S
  pub create_temp : S → Bytes → Result E Bytes × S
  pub chmod : S → Bytes → ℕ → Result E (Unit {0}) × S
  pub copy : S → Bytes → R → Result E (Unit {0}) × S
  pub open_file : S → Bytes → Result E (Unit {0}) × S
  pub sync_file : S → Bytes → Result E (Unit {0}) × S
  pub close_file : S → Bytes → Result E (Unit {0}) × S
  pub remove : S → Bytes → Result E (Unit {0}) × S
  pub replace_file : S → Bytes → Bytes → Result E (Unit {0}) × S
  pub sync_dir : S → Bytes → Result E (Unit {0}) × S
  pub dir : Bytes → Bytes
  pub base : Bytes → Bytes
  pub clean_abs : Bytes → Option Bytes
  pub clean : Bytes → Bytes

-- `committed e` is a `CommittedError`, and `out_of_fuel` the end of the model's fuel.
pub data WriteError (E : Type 0) : Type 0 where
  path_required source_required reader_required : WriteError E
  directory_mode_bits file_mode_bits : WriteError E
  create_parent create_temporary set_mode write_temporary : E → WriteError E
  open_source flush close replace_failed : E → WriteError E
  committed : E → WriteError E
  out_of_fuel : WriteError E

-- `mode.Perm()` keeps the nine low bits.
abbrev pub perm : ℕ → ℕ
perm mode = mode % 512

-- `if err := call; err != nil { return wrap(err) }`, and what follows it.
unfoldable pub check :
    {S E A B : Type 0}
    → (E → WriteError E)
    → Result E A × S
    → (A → S → Result (WriteError E) B × S)
    → Result (WriteError E) B × S
check wrap (err e, s) next = (err (wrap e), s)
check wrap (ok a, s) next = next a s

-- The same where the error is made already.
unfoldable pub proceed :
    {S E A B : Type 0}
    → Result (WriteError E) A × S
    → (A → S → Result (WriteError E) B × S)
    → Result (WriteError E) B × S
proceed (err e, s) next = (err e, s)
proceed (ok a, s) next = next a s

module _ {S E R : Type 0} (sys : System S E R) where
  unfoldable pub validate_path_and_directory_mode : Bytes → ℕ → Result (WriteError E) (Unit {0})
  validate_path_and_directory_mode path directory_mode = do
    fail_if (is_empty path || text_eq (sys.base path) (codes ".")) path_required
    fail_if (not (directory_mode == perm directory_mode)) directory_mode_bits

  unfoldable pub validate : Bytes → ℕ → ℕ → Result (WriteError E) (Unit {0})
  validate path file_mode directory_mode = do
    validate_path_and_directory_mode path directory_mode
    fail_if (not (file_mode == perm file_mode)) file_mode_bits

  -- The loop of `createParentDirectories`, which ends at the first directory that exists and at one
  -- that is its own parent.
  unfoldable pub missing_directories : ℕ → S → Bytes → Result (WriteError E) (List Bytes)
  missing_directories zero s current = err out_of_fuel
  missing_directories (suc fuel) s current =
      let rest = missing_directories fuel s (sys.dir current) in
      elim (sys.stat s current) [
        | exists ↦ ok []
        | stat_error e ↦ err (create_parent e)
        | not_exist ↦
            if text_eq (sys.dir current) current
            then ok (current ∷ [])
            else (rest >>= λ missing. ok (current ∷ missing))
      ]

  unfoldable pub create_parent_directories : S → Bytes → ℕ → Result (WriteError E) (List Bytes) × S
  create_parent_directories s directory mode =
      elim (missing_directories (length (sys.clean directory) + 2) s (sys.clean directory)) [
        | err e ↦ (err e, s)
        | ok missing ↦ check create_parent (sys.mkdir_all s directory mode) (λ _ s. (ok missing, s))
      ]

  -- The loop of `syncCreatedDirectoryParents`; the list `synced` is the map's keys.
  unfoldable pub sync_created_directory_parents :
      S → List Bytes → List Bytes → Result E (Unit {0}) × S
  sync_created_directory_parents s synced [] = (ok tt, s)
  sync_created_directory_parents s synced (directory ∷ created) =
      elim (contains synced (sys.dir directory)) [
        | true ↦ sync_created_directory_parents s synced created
        | false ↦
            let (result, s') = sys.sync_dir s (sys.dir directory) in
            elim result [
              | err e ↦ (err e, s')
              | ok _ ↦ sync_created_directory_parents s' (sys.dir directory ∷ synced) created
            ]
      ]

  unfoldable pub same_directory : Bytes → Bytes → Bool
  same_directory first second = elim (sys.clean_abs first) [
    | none ↦ false
    | some a ↦ elim (sys.clean_abs second) [ none ↦ false | some b ↦ text_eq a b ]
  ]

pub record ReplacementTransaction : Type 0 where
  pub source : Bytes
  pub destination : Bytes
  pub source_directory : Bytes
  pub destination_dir : Bytes
  pub created_directories : List Bytes

module _ {S E R : Type 0} (sys : System S E R) where
  -- The sync of the source's directory, where it is another one.
  unfoldable pub sync_source : S → ReplacementTransaction → Result E (Unit {0}) × S
  sync_source s t =
      if same_directory sys t.source_directory t.destination_dir
      then (ok tt, s)
      else sys.sync_dir s t.source_directory

  -- The body of `commit`, which runs under the destination's lock.
  unfoldable pub commit : S → ReplacementTransaction → Result (WriteError E) (Unit {0}) × S
  commit s t = check replace_failed (sys.replace_file s t.source t.destination) λ _ s.
      check committed (sys.sync_dir s t.destination_dir) λ _ s.
        check committed (sync_source s t) λ _ s.
          check committed (sync_created_directory_parents sys s [] t.created_directories)
            λ _ s. (ok tt, s)

  -- From `Chmod` to `Close`.
  unfoldable pub fill_temporary : S → Bytes → R → ℕ → Result (WriteError E) (Unit {0}) × S
  fill_temporary s temporary reader file_mode =
      check set_mode (sys.chmod s temporary file_mode) λ _ s.
        check write_temporary (sys.copy s temporary reader) λ _ s.
          check flush (sys.sync_file s temporary)
            λ _ s. check close (sys.close_file s temporary) λ _ s. (ok tt, s)

  -- The deferred function after an error: before the file is closed, and after.
  unfoldable pub removing :
      Bytes → Result (WriteError E) (Unit {0}) × S → Result (WriteError E) (Unit {0}) × S
  removing temporary (err e, s) = (err e, (sys.remove s temporary).1)
  removing temporary (ok _, s) = (ok tt, s)

  unfoldable pub closing_and_removing :
      Bytes
      → Result (WriteError E) (Unit {0}) × S
      → (S → Result (WriteError E) (Unit {0}) × S)
      → Result (WriteError E) (Unit {0}) × S
  closing_and_removing temporary (err e, s) next =
      (err e, (sys.remove (sys.close_file s temporary).1 temporary).1)
  closing_and_removing temporary (ok _, s) next = removing temporary (next s)

  -- `none` is the nil reader.
  unfoldable pub write_reader : S → Bytes → Option R → ℕ → ℕ → Result (WriteError E) (Unit {0}) × S
  write_reader s path reader file_mode directory_mode =
      elim (validate sys path file_mode directory_mode) [
        | err e ↦ (err e, s)
        | ok _ ↦ elim reader [
          | none ↦ (err reader_required, s)
          | some reader ↦
              proceed (create_parent_directories sys s (sys.dir path) directory_mode) λ created s.
                check create_temporary (sys.create_temp s (sys.dir path)) λ temporary s.
                  closing_and_removing temporary (fill_temporary s temporary reader file_mode) λ s.
                    commit s (record {
                      source = temporary;
                      destination = path;
                      source_directory = sys.dir path;
                      destination_dir = sys.dir path;
                      created_directories = created;
                    })
        ]
      ]

  -- The source's sync, after which it is closed either way.
  unfoldable pub flush_source : S → Bytes → Result (WriteError E) (Unit {0}) × S
  flush_source s source =
      let (result, s') = sys.sync_file s source in
      elim result [
        | err e ↦ (err (flush e), (sys.close_file s' source).1)
        | ok _ ↦ check close (sys.close_file s' source) (λ _ s. (ok tt, s))
      ]

  unfoldable pub replace : S → Bytes → Bytes → ℕ → Result (WriteError E) (Unit {0}) × S
  replace s source destination directory_mode =
      if is_empty source
      then (err source_required, s)
      else elim (validate_path_and_directory_mode sys destination directory_mode) [
        | err e ↦ (err e, s)
        | ok _ ↦
            proceed (create_parent_directories sys s (sys.dir destination) directory_mode)
              λ created s. check open_source (sys.open_file s source) λ _ s.
                proceed (flush_source s source) λ _ s. commit s (record {
                  source = source;
                  destination = destination;
                  source_directory = sys.dir source;
                  destination_dir = sys.dir destination;
                  created_directories = created;
                })
      ]
