-- ===== src/DurableFile/Replacing/Atomic.antt =====
-- What `writeReader` leaves at the destination, whichever call fails.
use gouterstellar_platform.Base.{
  if◌then◌else◌, ok, Result-cases, ℕ, ◌≡◌, refl, ap, subst, ◌∙◌, ◌≢◌, inl, inr, Option, some, List,
}
use gouterstellar_platform.Text.{Bytes}
use gouterstellar_platform.DurableFile.Replacing.Defs.{
  System, check, closing_and_removing, commit, ReplacementTransaction, create_parent_directories,
  validate, fill_temporary, write_reader, create_temporary,
}
use gouterstellar_platform.DurableFile.Replacing.Outcomes.{
  IsSystem, is_visible, Outcome, check-Outcome, proceed-Outcome, commit-Outcome,
}
use gouterstellar_platform.DurableFile.Replacing.Temporary.{
  after, Filled, fill_temporary-Filled, closing-Outcome,
}
use gouterstellar_platform.DurableFile.Replacing.Checks.{
  parents_keep, parents_hidden, validate_hidden,
}

-- The transaction of `writeReader`.
abbrev from_temporary : Bytes → Bytes → Bytes → List Bytes → ReplacementTransaction
from_temporary path directory temporary created = record {
  source = temporary;
  destination = path;
  source_directory = directory;
  destination_dir = directory;
  created_directories = created;
}

module _ {S E R : Type 0} (sys : System S E R) (content : S → Bytes → Option Bytes)
    (text : R → Bytes) (lawful : IsSystem sys content text) where
  -- From the creation of the temporary file on.
  temporary_whole :
      (s : S) (path : Bytes) (r : R) (mode : ℕ) (created : List Bytes) (v : Option Bytes)
      → ((s : S) (d t : Bytes) → (sys.create_temp s d).0 ≡ ok t → t ≢ path)
      → content s path ≡ v
      → Outcome content path (text r) v (
          check create_temporary (sys.create_temp s (sys.dir path)) λ temporary s.
            closing_and_removing sys temporary (fill_temporary sys s temporary r mode) λ s.
              commit sys s (record {
                source = temporary;
                destination = path;
                source_directory = sys.dir path;
                destination_dir = sys.dir path;
                created_directories = created;
              }))
  temporary_whole s path r mode created v apart h =
      let keeps = lawful.create_temp-keeps s (sys.dir path) path (apart s (sys.dir path)) ∙ h in
      check-Outcome content path (text r) v create_temporary (sys.create_temp s (sys.dir path)) _
        (λ e. refl) (λ e f. keeps)
        λ t s₁ e₁.
          let made = ap (λ q. q.0) e₁ in
          let ne = apart s (sys.dir path) t made in
          let k₁ = after content _ (ok t) s₁ path v e₁ keeps in
          let t₁ =
            after content _ (ok t) s₁ t _ e₁ (lawful.create_temp-empty s (sys.dir path) t made) in
          closing-Outcome sys content text lawful path t (text r) v _ _ ne
            (subst (λ b. Filled content path t (text r) b (fill_temporary sys s₁ t r mode)) k₁
              (fill_temporary-Filled sys content text lawful s₁ t path r mode ne t₁))
            λ s₂ k₂ t₂.
              subst
                (λ b.
                  Outcome content path (text r) b
                    (commit sys s₂ (from_temporary path (sys.dir path) t created)))
                k₂
                (commit-Outcome sys content text lawful s₂
                  (from_temporary path (sys.dir path) t created) (text r) t₂)

  -- Whichever call fails, the destination holds afterwards what it held before, or all that the reader
  -- gives; the second exactly when the result is a success or a committed error. The temporary file is
  -- supposed to have another path than the destination.
  pub write_reader_whole :
      (s : S) (path : Bytes) (r : R) (file_mode directory_mode : ℕ)
      → ((s : S) (d t : Bytes) → (sys.create_temp s d).0 ≡ ok t → t ≢ path)
      → let (result, s') = write_reader sys s path (some r) file_mode directory_mode in
        content s' path ≡ (if is_visible result then some (text r) else content s path)
  unfolding write_reader
  write_reader_whole s path r file_mode directory_mode apart =
      elim (Result-cases (validate sys path file_mode directory_mode)) [
        | inr (x, e) ↦
            rw
              (
                e,
                write_reader,
                validate_hidden sys content text lawful path file_mode directory_mode x e,
              )
              refl
        | inl (a, e) ↦
            rw (e, write_reader)
              (proceed-Outcome content path (text r) (content s path)
                (create_parent_directories sys s (sys.dir path) directory_mode) _
                (parents_hidden sys content text lawful s (sys.dir path) directory_mode)
                (parents_keep sys content text lawful s (sys.dir path) directory_mode path)
                λ created s₁ e₁.
                  temporary_whole s₁ path r file_mode created (content s path) apart (
                    after content _ (ok created) s₁ path _ e₁
                      (parents_keep sys content text lawful s (sys.dir path) directory_mode path)))
      ]
