-- ===== src/DurableFile/Replacing/Parts.antt =====
-- That the parts of `writeReader` succeed where the calls of the operating system do.
use gouterstellar_platform.Base.{
  Bool-cases, Result, ok, err, length, All, ok-injective, ℕ, ◌+◌, ◌≡◌, refl, sym, subst, ◌≢◌, inl,
  inr, Option, some, List, [], ◌∷◌, arith,
}
use gouterstellar_platform.Text.{Bytes, contains}
use gouterstellar_platform.DurableFile.Replacing.Defs.{
  System, WriteError, create_parent_directories, stat_error, check, sync_created_directory_parents,
  sync_source, same_directory, commit, ReplacementTransaction, fill_temporary, create_parent,
  replace_failed, committed, set_mode, write_temporary, flush, close,
}
use gouterstellar_platform.DurableFile.Replacing.Parents.{
  Walk, found, failed, top, step, IsDir, missing_directories_lem,
}
use gouterstellar_platform.DurableFile.Replacing.Healthy.{
  Succeeds, Above, here, up, IsHealthy, moved, check-Succeeds, check-Holds,
}

module _ {S E R : Type 0} (sys : System S E R) (s : S) (root : Bytes)
    (told : (d : Bytes) (e : E) → Above sys.dir root d → sys.stat s d ≢ stat_error e) where
  -- The parents of the directories that a walk finds missing.
  abbrev pub IsInside : List Bytes → Type 0
  IsInside missing = All (λ c. Above sys.dir root (sys.dir c)) missing

  walk-Succeeds :
      (d : Bytes) (r : Result (WriteError E) (List Bytes))
      → Walk sys s d r
      → Above sys.dir root d
      → (missing : List Bytes) × (r ≡ ok missing) × IsInside missing
  walk-Succeeds _ _ (found d q) a = ([], refl, tt)
  walk-Succeeds _ _ (failed d x q) a = absurd (told d x a q)
  walk-Succeeds _ _ (top d q p) a = (d ∷ [], refl, (up d a, tt))
  walk-Succeeds _ _ (step d (ok missing) q n w) a =
      let (above, h, inside) = walk-Succeeds (sys.dir d) (ok missing) w (up d a) in
      let same = ok-injective missing above h in
      (d ∷ missing, refl, (up d a, subst IsInside (sym same) inside))
  walk-Succeeds _ _ (step d (err x) q n w) a =
      let (above, h, inside) = walk-Succeeds (sys.dir d) (err x) w (up d a) in cc h

module _ {S E R : Type 0} (sys : System S E R) (content : S → Bytes → Option Bytes)
    (is_dir is_free is_open : S → Bytes → Type 0) (r : R)
    (healthy : IsHealthy sys content is_dir is_free is_open r) where
  made_parents :
      {A : Type 0} (q : Result E (Unit {0}) × S) (a : A)
      → q.0 ≡ ok tt
      → check create_parent q (λ _ s. (ok a, s)) ≡ (ok a, q.1)
  unfolding check
  made_parents (ok tt, s) a h = refl
  made_parents (err e, s) a h = cc h

  pub parents_made :
      (s : S) (directory : Bytes) (mode : ℕ)
      → IsDir sys.dir
      → ((d : Bytes) (e : E) → Above sys.dir (sys.clean directory) d → sys.stat s d ≢ stat_error e)
      → (sys.mkdir_all s directory mode).0 ≡ ok tt
      → (missing : List Bytes) × (create_parent_directories sys s directory mode
          ≡ (ok missing, (sys.mkdir_all s directory mode).1))
        × All (λ c. Above sys.dir (sys.clean directory) (sys.dir c)) missing
  unfolding create_parent_directories
  parents_made s directory mode shorter told makes =
      let d = sys.clean directory in
      let fuel = length d + 2 in
      let (missing, h, inside) =
        walk-Succeeds sys s d told d _ (missing_directories_lem sys s fuel d shorter (omega arith))
          here in
      (
        missing,
        rw (h, create_parent_directories)
            (made_parents (sys.mkdir_all s directory mode) missing makes),
        inside,
      )

  -- The directories that are to be synced are there.
  module _ (needed : Bytes → Type 0) where
    abbrev pub Ready : S → Type 0
    Ready s = (d : Bytes) → needed d → is_dir s d

    syncs-Succeeds :
        (s : S) (synced created : List Bytes)
        → Ready s
        → All (λ c. needed (sys.dir c)) created
        → Succeeds (sync_created_directory_parents sys s synced created).0
    unfolding sync_created_directory_parents
    syncs-Succeeds s synced [] k a = (tt, refl)
    syncs-Succeeds s synced (c ∷ cs) k (n, a) = elim (Bool-cases (contains synced (sys.dir c))) [
      | inl t ↦ rw (t, sync_created_directory_parents) (syncs-Succeeds s synced cs k a)
      | inr f ↦
          rw (f, healthy.syncs_dir s (sys.dir c) (k (sys.dir c) n), sync_created_directory_parents)
            (syncs-Succeeds (sys.sync_dir s (sys.dir c)).1 (sys.dir c ∷ synced) cs
              (λ d m. healthy.sync_dir-dirs s (sys.dir c) d (k d m)) a)
    ]

    sync_source-Succeeds :
        (s : S) (t : ReplacementTransaction)
        → Ready s
        → needed t.source_directory
        → Succeeds (sync_source sys s t).0
    unfolding sync_source
    sync_source-Succeeds s t k n =
        elim (Bool-cases (same_directory sys t.source_directory t.destination_dir)) [
          | inl e ↦ rw (e) (tt, refl)
          | inr e ↦ rw (e) (tt, healthy.syncs_dir s t.source_directory (k t.source_directory n))
        ]

    sync_source-Ready :
        (s : S) (t : ReplacementTransaction) → Ready s → Ready (sync_source sys s t).1
    unfolding sync_source
    sync_source-Ready s t k =
        elim (Bool-cases (same_directory sys t.source_directory t.destination_dir)) [
          | inl e ↦ rw (e) k
          | inr e ↦ rw (e) (λ d m. healthy.sync_dir-dirs s t.source_directory d (k d m))
        ]

    pub commit-Succeeds :
        (s : S) (t : ReplacementTransaction) (d : Bytes)
        → content s t.source ≡ some d
        → Ready s
        → needed (sys.dir t.destination)
        → is_free s t.destination
        → needed t.destination_dir
        → needed t.source_directory
        → All (λ c. needed (sys.dir c)) t.created_directories
        → Succeeds (commit sys s t).0
    unfolding commit
    commit-Succeeds s t d there k parent free destination source created =
        check-Succeeds replace_failed (sys.replace_file s t.source t.destination) _
          (tt, healthy.replaces s t.source t.destination d there (k _ parent) free)
          λ a₁ s₁ e₁.
            let k₁ =
              moved Ready _ (ok a₁) s₁ e₁
                (λ x m. healthy.replace_file-dirs s t.source t.destination x (k x m)) in
            check-Succeeds committed (sys.sync_dir s₁ t.destination_dir) _
              (tt, healthy.syncs_dir s₁ t.destination_dir (k₁ _ destination))
              λ a₂ s₂ e₂.
                let k₂ =
                  moved Ready _ (ok a₂) s₂ e₂
                    (λ x m. healthy.sync_dir-dirs s₁ t.destination_dir x (k₁ x m)) in
                check-Succeeds committed (sync_source sys s₂ t) _
                  (sync_source-Succeeds s₂ t k₂ source)
                  λ a₃ s₃ e₃.
                    let k₃ = moved Ready _ (ok a₃) s₃ e₃ (sync_source-Ready s₂ t k₂) in
                    check-Succeeds committed
                      (sync_created_directory_parents sys s₃ [] t.created_directories) _
                      (syncs-Succeeds s₃ [] t.created_directories k₃ created) λ a₄ s₄ e₄. (tt, refl)

  -- What each call on the temporary file keeps is kept by them together.
  fill-Holds :
      (K : S → Type 0) (s : S) (f : Bytes) (mode : ℕ)
      → ((s : S) → K s → K (sys.chmod s f mode).1)
      → ((s : S) → K s → K (sys.copy s f r).1)
      → ((s : S) → K s → K (sys.sync_file s f).1)
      → ((s : S) → K s → K (sys.close_file s f).1)
      → K s
      → K (fill_temporary sys s f r mode).1
  unfolding fill_temporary
  fill-Holds K s f mode chmods copies syncs closes k =
      check-Holds K set_mode (sys.chmod s f mode) _ (chmods s k) λ a s k.
        check-Holds K write_temporary (sys.copy s f r) _ (copies s k) λ a s k.
          check-Holds K flush (sys.sync_file s f) _ (syncs s k)
            λ a s k. check-Holds K close (sys.close_file s f) _ (closes s k) λ a s k. k

  pub fill-dirs :
      (s : S) (f : Bytes) (mode : ℕ) (x : Bytes)
      → is_dir s x
      → is_dir (fill_temporary sys s f r mode).1 x
  fill-dirs s f mode x =
      fill-Holds (λ s. is_dir s x) s f mode (λ s. healthy.chmod-dirs s f mode x)
        (λ s. healthy.copy-dirs s f x) (λ s. healthy.sync_file-dirs s f x)
        (λ s. healthy.close_file-dirs s f x)

  pub fill-free :
      (s : S) (f : Bytes) (mode : ℕ) (x : Bytes)
      → is_free s x
      → is_free (fill_temporary sys s f r mode).1 x
  fill-free s f mode x =
      fill-Holds (λ s. is_free s x) s f mode (λ s. healthy.chmod-free s f mode x)
        (λ s. healthy.copy-free s f x) (λ s. healthy.sync_file-free s f x)
        (λ s. healthy.close_file-free s f x)

  pub fill-Succeeds :
      (s : S) (f : Bytes) (mode : ℕ) → is_open s f → Succeeds (fill_temporary sys s f r mode).0
  unfolding fill_temporary
  fill-Succeeds s f mode o =
      check-Succeeds set_mode (sys.chmod s f mode) _ (tt, healthy.chmods s f mode o)
        λ a₁ s₁ e₁.
          let o₁ = moved (λ s. is_open s f) _ (ok a₁) s₁ e₁ (healthy.chmod-open s f mode o) in
          check-Succeeds write_temporary (sys.copy s₁ f r) _ (tt, healthy.copies s₁ f o₁)
            λ a₂ s₂ e₂.
              let o₂ = moved (λ s. is_open s f) _ (ok a₂) s₂ e₂ (healthy.copy-open s₁ f o₁) in
              check-Succeeds flush (sys.sync_file s₂ f) _ (tt, healthy.syncs_file s₂ f o₂)
                λ a₃ s₃ e₃.
                  let o₃ =
                    moved (λ s. is_open s f) _ (ok a₃) s₃ e₃ (healthy.sync_file-open s₂ f o₂) in
                  check-Succeeds close (sys.close_file s₃ f) _ (tt, healthy.closes s₃ f o₃)
                    λ a₄ s₄ e₄. (tt, refl)
