-- ===== src/DurableFile/Replacing/Parents.antt =====
-- The loop of `createParentDirectories` ends, and what it then has found.
use gouterstellar_platform.Base.{
  Bool-cases, Result, ok, err, ◌>>=◌, length, ℕ, zero, suc, ◌+◌, ◌≤◌, ◌<◌, ◌≡◌, ◌≢◌, ◌⊎◌, inl, inr,
  List, [], ◌∷◌, arith,
}
use gouterstellar_platform.Text.{Bytes, text_eq, text_eq_iff}
use gouterstellar_platform.DurableFile.Replacing.Defs.{
  System, WriteError, missing_directories, create_parent, exists, not_exist, stat_error,
  out_of_fuel,
}
use gouterstellar_platform.DurableFile.Replacing.Checks.{StatResult-cases}

module _ {S E R : Type 0} (sys : System S E R) (s : S) where
  -- What a walk from a directory upwards ends with: all directories that do not exist, each one the
  -- parent of the one before it, up to one that exists or one that is its own parent; or the error of
  -- the first one of which `os.Stat` does not tell.
  pub data Walk : Bytes → Result (WriteError E) (List Bytes) → Type 0 where
    found : (d : Bytes) → sys.stat s d ≡ exists → Walk d (ok [])
    failed : (d : Bytes) (e : E) → sys.stat s d ≡ stat_error e → Walk d (err (create_parent e))
    top : (d : Bytes) → sys.stat s d ≡ not_exist → sys.dir d ≡ d → Walk d (ok (d ∷ []))
    step :
        (d : Bytes) (rest : Result (WriteError E) (List Bytes))
        → sys.stat s d ≡ not_exist
        → sys.dir d ≢ d
        → Walk (sys.dir d) rest
        → Walk d (rest >>= λ missing. ok (d ∷ missing))

-- What `filepath.Dir` documents: the parent is shorter, except of a root, which is its own parent,
-- and of a single relative name, whose parent "." is its own parent.
abbrev pub IsDir : (Bytes → Bytes) → Type 0
IsDir dir = (d : Bytes) → (length (dir d) < length d) ⊎ (dir (dir d) ≡ dir d)

module _ {S E R : Type 0} (sys : System S E R) (s : S) where
  -- One step of the loop.
  walk_step :
      (fuel : ℕ) (d : Bytes)
      → (sys.dir d ≢ d → Walk sys s (sys.dir d) (missing_directories sys fuel s (sys.dir d)))
      → Walk sys s d (missing_directories sys (suc fuel) s d)
  unfolding missing_directories
  walk_step fuel d above = elim (StatResult-cases (sys.stat s d)) [
    | inl q ↦ rw (q, missing_directories) (found d q)
    | inr (inl (x, q)) ↦ rw (q, missing_directories) (failed d x q)
    | inr (inr q) ↦ elim (Bool-cases (text_eq (sys.dir d) d)) [
      | inl t ↦
          rw (q, t, missing_directories) (top d q (ground (arith, t, text_eq_iff (sys.dir d) d)))
      | inr f ↦
          let apart : sys.dir d ≢ d = ground (arith, f, text_eq_iff (sys.dir d) d) in
          rw (q, f, missing_directories) (step d _ q apart (above apart))
    ]
  ]

  -- With the documented behaviour of `filepath.Dir`, and fuel for two steps more than the directory
  -- has characters, which is what `createParentDirectories` is given, the loop comes to its end: with
  -- exactly the missing directories from this one upwards, or, where `os.Stat` fails on one of these
  -- otherwise than for its absence, with that error and no directories.
  pub missing_directories_lem :
      (fuel : ℕ) (d : Bytes)
      → IsDir sys.dir
      → length d + 2 ≤ fuel
      → Walk sys s d (missing_directories sys fuel s d)
  missing_directories_lem zero d shorter h = ground (arith, h)
  missing_directories_lem (suc zero) d shorter h = ground (arith, h)
  missing_directories_lem (suc (suc fuel)) d shorter h = walk_step (suc fuel) d λ apart.
      elim (shorter d) [
        | inl l ↦ missing_directories_lem (suc fuel) (sys.dir d) shorter (omega (arith, h, l))
        | inr same ↦ walk_step fuel (sys.dir d) λ other. absurd (other same)
      ]

  Walk-in_fuel :
      (d : Bytes) (r : Result (WriteError E) (List Bytes)) → Walk sys s d r → r ≢ err out_of_fuel
  Walk-in_fuel _ _ (found d q) h = cc h
  Walk-in_fuel _ _ (failed d x q) h = cc h
  Walk-in_fuel _ _ (top d q p) h = cc h
  Walk-in_fuel _ _ (step d (ok missing) q n w) h = cc h
  Walk-in_fuel _ _ (step d (err x) q n w) h = Walk-in_fuel (sys.dir d) (err x) w (cc h)
