-- ===== src/DurableFile/Replacing/Outcomes.antt =====
-- What the operating system documents of its calls, and how outcomes of calls compose.
use gouterstellar_platform.Base.{
  if◌then◌else◌, Bool-cases, Result, ok, err, Result-cases, ℕ, ◌≡◌, refl, sym, ap, ◌∙◌, ◌≢◌, inl,
  inr, Bool, true, false, Option, some, List, [], ◌∷◌,
}
use gouterstellar_platform.Text.{Bytes, contains}
use gouterstellar_platform.DurableFile.Replacing.Defs.{
  System, WriteError, committed, check, proceed, sync_created_directory_parents, sync_source,
  commit, ReplacementTransaction, replace_failed, same_directory,
}

-- `content` is what a path's file holds, if there is one, and `text` what a reader gives to its end.
pub record IsSystem {S E R : Type 0} (sys : System S E R) (content : S → Bytes → Option Bytes)
    (text : R → Bytes) : Type 0 where
  pub mkdir_all-keeps :
      (s : S) (d : Bytes) (m : ℕ) (p : Bytes) → content (sys.mkdir_all s d m).1 p ≡ content s p
  pub create_temp-keeps :
      (s : S) (d p : Bytes)
      → ((t : Bytes) → (sys.create_temp s d).0 ≡ ok t → t ≢ p)
      → content (sys.create_temp s d).1 p ≡ content s p
  pub create_temp-empty :
      (s : S) (d t : Bytes)
      → (sys.create_temp s d).0 ≡ ok t
      → content (sys.create_temp s d).1 t ≡ some []
  pub chmod-keeps :
      (s : S) (f : Bytes) (m : ℕ) (p : Bytes) → content (sys.chmod s f m).1 p ≡ content s p
  pub copy-keeps :
      (s : S) (f : Bytes) (r : R) (p : Bytes) → f ≢ p → content (sys.copy s f r).1 p ≡ content s p
  pub copy-fills :
      (s : S) (f : Bytes) (r : R)
      → content s f ≡ some []
      → (sys.copy s f r).0 ≡ ok tt
      → content (sys.copy s f r).1 f ≡ some (text r)
  pub open_file-keeps : (s : S) (f p : Bytes) → content (sys.open_file s f).1 p ≡ content s p
  pub sync_file-keeps : (s : S) (f p : Bytes) → content (sys.sync_file s f).1 p ≡ content s p
  pub close_file-keeps : (s : S) (f p : Bytes) → content (sys.close_file s f).1 p ≡ content s p
  pub remove-keeps : (s : S) (f p : Bytes) → f ≢ p → content (sys.remove s f).1 p ≡ content s p
  -- A replacement happens as a whole or not at all.
  pub replace_file-fails :
      (s : S) (a b p : Bytes) (e : E)
      → (sys.replace_file s a b).0 ≡ err e
      → content (sys.replace_file s a b).1 p ≡ content s p
  pub replace_file-moves :
      (s : S) (a b : Bytes)
      → (sys.replace_file s a b).0 ≡ ok tt
      → content (sys.replace_file s a b).1 b ≡ content s a
  pub sync_dir-keeps : (s : S) (d p : Bytes) → content (sys.sync_dir s d).1 p ≡ content s p

-- Whether a result tells the caller that the new file is in place: success, or a `CommittedError`.
abbrev pub is_visible : {E A : Type 0} → Result (WriteError E) A → Bool
is_visible (ok _) = true
is_visible (err (committed e)) = true
is_visible (err _) = false

-- An error of this result does not tell so.
abbrev pub Hides : {E A : Type 0} → Result (WriteError E) A → Type 0
Hides {E = E} r = (e : WriteError E) → r ≡ err e → is_visible {A = Unit {0}} (err e) ≡ false

module _ {S E : Type 0} (content : S → Bytes → Option Bytes) (path : Bytes) (d : Bytes) where
  -- The path holds `d` if the result says so, and otherwise what it held before.
  abbrev pub Outcome : {A : Type 0} → Option Bytes → Result (WriteError E) A × S → Type 0
  Outcome before (result, s) = content s path ≡ (if is_visible result then some d else before)

  -- A call before the replacement.
  pub check-Outcome :
      {A B : Type 0} (before : Option Bytes) (wrap : E → WriteError E) (call : Result E A × S)
      (next : A → S → Result (WriteError E) B × S)
      → ((e : E) → is_visible {A = B} (err (wrap e)) ≡ false)
      → ((e : E) → call.0 ≡ err e → content call.1 path ≡ before)
      → ((a : A) (s : S) → call ≡ (ok a, s) → Outcome before (next a s))
      → Outcome before (check wrap call next)
  unfolding check
  check-Outcome before wrap (err e, s) next w k n = rw (w e) (k e refl)
  check-Outcome before wrap (ok a, s) next w k n = n a s refl

  -- A part of the operation before the replacement.
  pub proceed-Outcome :
      {A : Type 0} (before : Option Bytes) (part : Result (WriteError E) A × S)
      (next : A → S → Result (WriteError E) (Unit {0}) × S)
      → Hides part.0
      → content part.1 path ≡ before
      → ((a : A) (s : S) → part ≡ (ok a, s) → Outcome before (next a s))
      → Outcome before (proceed part next)
  unfolding proceed
  proceed-Outcome before (ok a, s) next h k n = n a s refl
  proceed-Outcome before (err e, s) next h k n = rw (h e refl) k

  -- A call after it.
  pub check-Visible :
      {A B : Type 0} (before : Option Bytes) (call : Result E A × S)
      (next : A → S → Result (WriteError E) B × S)
      → content call.1 path ≡ some d
      → ((a : A) (s : S) → content s path ≡ some d → Outcome before (next a s))
      → Outcome before (check committed call next)
  unfolding check
  check-Visible before (err e, s) next k n = k
  check-Visible before (ok a, s) next k n = n a s k

module _ {S E R : Type 0} (sys : System S E R) (content : S → Bytes → Option Bytes)
    (text : R → Bytes) (lawful : IsSystem sys content text) where
  pub syncs_keep :
      (s : S) (synced created : List Bytes) (p : Bytes)
      → content (sync_created_directory_parents sys s synced created).1 p ≡ content s p
  unfolding sync_created_directory_parents
  syncs_keep s synced [] p = refl
  syncs_keep s synced (c ∷ cs) p = elim (Bool-cases (contains synced (sys.dir c))) [
    | inl t ↦ rw (t, sync_created_directory_parents) (syncs_keep s synced cs p)
    | inr f ↦ elim (Result-cases (sys.sync_dir s (sys.dir c)).0) [
      | inl (a, e) ↦
          rw (f, e, sync_created_directory_parents)
            (syncs_keep (sys.sync_dir s (sys.dir c)).1 (sys.dir c ∷ synced) cs p
              ∙ lawful.sync_dir-keeps s (sys.dir c) p)
      | inr (x, e) ↦
          rw (f, e, sync_created_directory_parents) (lawful.sync_dir-keeps s (sys.dir c) p)
    ]
  ]

  pub sync_source_keeps :
      (s : S) (t : ReplacementTransaction) (p : Bytes)
      → content (sync_source sys s t).1 p ≡ content s p
  unfolding sync_source
  sync_source_keeps s t p =
      elim (Bool-cases (same_directory sys t.source_directory t.destination_dir)) [
        | inl e ↦ rw (e) refl
        | inr e ↦ rw (e) (lawful.sync_dir-keeps s t.source_directory p)
      ]

  replaced :
      (s : S) (t : ReplacementTransaction) (d : Bytes)
      → content s t.source ≡ some d
      → (a : Unit {0}) (s' : S) → sys.replace_file s t.source t.destination ≡ (ok a, s')
      → content s' t.destination ≡ some d
  replaced s t d h a s' e =
      ap (λ q. content q.1 t.destination) (sym e)
      ∙ lawful.replace_file-moves s t.source t.destination (ap (λ q. q.0) e)
      ∙ h

  pub commit-Outcome :
      (s : S) (t : ReplacementTransaction) (d : Bytes)
      → content s t.source ≡ some d
      → Outcome content t.destination d (content s t.destination) (commit sys s t)
  unfolding commit
  commit-Outcome s t d h =
      let before = content s t.destination in
      check-Outcome content t.destination d before replace_failed
        (sys.replace_file s t.source t.destination) _ (λ e. refl)
        (λ e f. lawful.replace_file-fails s t.source t.destination t.destination e f)
        λ _ s₁ e₁.
          check-Visible content t.destination d before (sys.sync_dir s₁ t.destination_dir) _
            (lawful.sync_dir-keeps s₁ t.destination_dir t.destination ∙ replaced s t d h _ s₁ e₁)
            λ _ s₂ k₂.
              check-Visible content t.destination d before (sync_source sys s₂ t) _
                (sync_source_keeps s₂ t t.destination ∙ k₂)
                λ _ s₃ k₃.
                  check-Visible content t.destination d before
                    (sync_created_directory_parents sys s₃ [] t.created_directories) _
                    (syncs_keep s₃ [] t.created_directories t.destination ∙ k₃) λ _ s₄ k₄. k₄
