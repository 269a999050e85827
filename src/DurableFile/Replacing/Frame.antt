-- ===== src/DurableFile/Replacing/Frame.antt =====
-- What the parts of `writeReader` do to a third file.
use gouterstellar_platform.Base.{Result, ok, err, ℕ, ◌≡◌, refl, ◌∙◌, ◌≢◌, Option, none, []}
use gouterstellar_platform.Text.{Bytes}
use gouterstellar_platform.DurableFile.Replacing.Defs.{
  System, WriteError, check, proceed, removing, closing_and_removing, fill_temporary, sync_source,
  sync_created_directory_parents, commit, ReplacementTransaction, set_mode, write_temporary, flush,
  close, replace_failed, committed,
}
use gouterstellar_platform.DurableFile.Replacing.Outcomes.{IsSystem, syncs_keep, sync_source_keeps}

-- What the operating system documents of the other files: a temporary file is a new one, a replacement
-- moves the source away and touches no third file, and what is
-- removed is gone, and otherwise as it was.
pub record IsFramed {S E R : Type 0} (sys : System S E R) (content : S → Bytes → Option Bytes)
    : Type 0 where
  pub create_temp-new : (s : S) (d t : Bytes) → (sys.create_temp s d).0 ≡ ok t → content s t ≡ none
  pub replace_file-keeps :
      (s : S) (a b p : Bytes) → a ≢ p → b ≢ p → content (sys.replace_file s a b).1 p ≡ content s p
  pub replace_file-empties :
      (s : S) (a b : Bytes)
      → a ≢ b
      → (sys.replace_file s a b).0 ≡ ok tt
      → content (sys.replace_file s a b).1 a ≡ none
  pub remove-removes :
      (s : S) (f : Bytes) → (sys.remove s f).0 ≡ ok tt → content (sys.remove s f).1 f ≡ none
  pub remove-fails :
      (s : S) (f : Bytes) (e : E)
      → (sys.remove s f).0 ≡ err e
      → content (sys.remove s f).1 f ≡ content s f

abbrev pub Kept :
    {S X : Type 0} → (S → Bytes → Option Bytes) → Bytes → Option Bytes → X × S → Type 0
Kept content p v (x, s) = content s p ≡ v

module _ {S E : Type 0} (content : S → Bytes → Option Bytes) (p : Bytes) (v : Option Bytes) where
  pub check-Kept :
      {A B : Type 0} (wrap : E → WriteError E) (call : Result E A × S)
      (next : A → S → Result (WriteError E) B × S)
      → Kept content p v call
      → ((a : A) (s : S) → content s p ≡ v → Kept content p v (next a s))
      → Kept content p v (check wrap call next)
  unfolding check
  check-Kept wrap (ok a, s) next k n = n a s k
  check-Kept wrap (err e, s) next k n = k

  pub check-Split :
      {A B : Type 0} (wrap : E → WriteError E) (call : Result E A × S)
      (next : A → S → Result (WriteError E) B × S)
      → ((e : E) → call.0 ≡ err e → Kept content p v call)
      → ((a : A) (s : S) → call ≡ (ok a, s) → Kept content p v (next a s))
      → Kept content p v (check wrap call next)
  unfolding check
  check-Split wrap (ok a, s) next f n = n a s refl
  check-Split wrap (err e, s) next f n = f e refl

  pub proceed-Kept :
      {A B : Type 0} (part : Result (WriteError E) A × S)
      (next : A → S → Result (WriteError E) B × S)
      → Kept content p v part
      → ((a : A) (s : S) → content s p ≡ v → Kept content p v (next a s))
      → Kept content p v (proceed part next)
  unfolding proceed
  proceed-Kept (ok a, s) next k n = n a s k
  proceed-Kept (err e, s) next k n = k

module _ {S E R : Type 0} (sys : System S E R) (content : S → Bytes → Option Bytes)
    (text : R → Bytes) (lawful : IsSystem sys content text) (framed : IsFramed sys content) where
  -- A third file.
  pub commit-Kept :
      (s : S) (t : ReplacementTransaction) (p : Bytes) (v : Option Bytes)
      → t.source ≢ p
      → t.destination ≢ p
      → content s p ≡ v
      → Kept content p v (commit sys s t)
  unfolding commit
  commit-Kept s t p v a b k =
      check-Kept content p v replace_failed (sys.replace_file s t.source t.destination) _
        (framed.replace_file-keeps s t.source t.destination p a b ∙ k)
        λ _ s k.
          check-Kept content p v committed (sys.sync_dir s t.destination_dir) _
            (lawful.sync_dir-keeps s t.destination_dir p ∙ k)
            λ _ s k.
              check-Kept content p v committed (sync_source sys s t) _
                (sync_source_keeps sys content text lawful s t p ∙ k)
                λ _ s k.
                  check-Kept content p v committed
                    (sync_created_directory_parents sys s [] t.created_directories) _
                    (syncs_keep sys content text lawful s [] t.created_directories p ∙ k) λ _ s k. k

  pub fill_temporary-Kept :
      (s : S) (temp : Bytes) (r : R) (mode : ℕ) (p : Bytes) (v : Option Bytes)
      → temp ≢ p
      → content s p ≡ v
      → Kept content p v (fill_temporary sys s temp r mode)
  unfolding fill_temporary
  fill_temporary-Kept s temp r mode p v ne k =
      check-Kept content p v set_mode (sys.chmod s temp mode) _
        (lawful.chmod-keeps s temp mode p ∙ k)
        λ _ s k.
          check-Kept content p v write_temporary (sys.copy s temp r) _
            (lawful.copy-keeps s temp r p ne ∙ k)
            λ _ s k.
              check-Kept content p v flush (sys.sync_file s temp) _
                (lawful.sync_file-keeps s temp p ∙ k)
                λ _ s k.
                  check-Kept content p v close (sys.close_file s temp) _
                    (lawful.close_file-keeps s temp p ∙ k) λ _ s k. k

  removing-Kept :
      (temp p : Bytes) (v : Option Bytes) (q : Result (WriteError E) (Unit {0}) × S)
      → temp ≢ p
      → Kept content p v q
      → Kept content p v (removing sys temp q)
  unfolding removing
  removing-Kept temp p v (err e, s) ne k = lawful.remove-keeps s temp p ne ∙ k
  removing-Kept temp p v (ok a, s) ne k = k

  pub closing-Kept :
      (temp p : Bytes) (v : Option Bytes) (q : Result (WriteError E) (Unit {0}) × S)
      (next : S → Result (WriteError E) (Unit {0}) × S)
      → temp ≢ p
      → Kept content p v q
      → ((s : S) → content s p ≡ v → Kept content p v (next s))
      → Kept content p v (closing_and_removing sys temp q next)
  unfolding closing_and_removing
  closing-Kept temp p v (err e, s) next ne k n =
      lawful.remove-keeps (sys.close_file s temp).1 temp p ne ∙ lawful.close_file-keeps s temp p ∙ k
  closing-Kept temp p v (ok a, s) next ne k n = removing-Kept temp p v (next s) ne (n s k)
