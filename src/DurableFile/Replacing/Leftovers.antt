-- ===== src/DurableFile/Replacing/Leftovers.antt =====
-- Which files `writeReader` leaves alone, and that it leaves no temporary file behind.
use gouterstellar_platform.Base.{
  ◌⊎◌, Option-cases, Bool-cases, Result, ok, err, Result-cases, ok-injective, ℕ, ◌≡◌, refl, sym, ap,
  subst, ◌∙◌, ◌≢◌, inl, inr, Option, none, some, List, [], arith,
}
use gouterstellar_platform.Text.{Bytes, text_eq, text_eq_iff}
use gouterstellar_platform.DurableFile.Replacing.Defs.{
  System, WriteError, check, proceed, removing, closing_and_removing, fill_temporary, sync_source,
  sync_created_directory_parents, commit, ReplacementTransaction, create_parent_directories,
  validate, write_reader, replace_failed, committed, create_temporary,
}
use gouterstellar_platform.DurableFile.Replacing.Outcomes.{IsSystem, syncs_keep, sync_source_keeps}
use gouterstellar_platform.DurableFile.Replacing.Temporary.{after}
use gouterstellar_platform.DurableFile.Replacing.Checks.{parents_keep}
use gouterstellar_platform.DurableFile.Replacing.Frame.{
  IsFramed, check-Kept, commit-Kept, fill_temporary-Kept, closing-Kept,
}

-- The last call of all was a removal of this file, which was there, and failed.
abbrev pub IsStuck :
    {S E R : Type 0} → System S E R → (S → Bytes → Option Bytes) → Bytes → S → Type 0
IsStuck {S} {E} sys content p s' =
    (s : S) × (e : E) × (d : Bytes) × (content s p ≡ some d) × (sys.remove s p ≡ (err e, s'))

-- A file is as it was; or it was not there, and its removal failed at last.
abbrev Left :
    {S E R X : Type 0}
    → System S E R
    → (S → Bytes → Option Bytes)
    → Bytes
    → Option Bytes
    → X × S
    → Type 0
Left sys content p v (x, s) = (content s p ≡ v) ⊎ ((v ≡ none) × IsStuck sys content p s)

module _ {S E R : Type 0} (sys : System S E R) (content : S → Bytes → Option Bytes) (p : Bytes)
    (v : Option Bytes) where
  check-Left :
      {A B : Type 0} (wrap : E → WriteError E) (call : Result E A × S)
      (next : A → S → Result (WriteError E) B × S)
      → ((e : E) → call.0 ≡ err e → content call.1 p ≡ v)
      → ((a : A) (s : S) → call ≡ (ok a, s) → Left sys content p v (next a s))
      → Left sys content p v (check wrap call next)
  unfolding check
  check-Left wrap (ok a, s) next f n = n a s refl
  check-Left wrap (err e, s) next f n = inl (f e refl)

  proceed-Left :
      {A B : Type 0} (part : Result (WriteError E) A × S)
      (next : A → S → Result (WriteError E) B × S)
      → content part.1 p ≡ v
      → ((a : A) (s : S) → content s p ≡ v → Left sys content p v (next a s))
      → Left sys content p v (proceed part next)
  unfolding proceed
  proceed-Left (ok a, s) next k n = n a s k
  proceed-Left (err e, s) next k n = inl k

module _ {S E R : Type 0} (sys : System S E R) (content : S → Bytes → Option Bytes)
    (text : R → Bytes) (lawful : IsSystem sys content text) (framed : IsFramed sys content) where
  gone :
      (s : S) (f : Bytes)
      → (content (sys.remove s f).1 f ≡ none) ⊎ IsStuck sys content f (sys.remove s f).1
  gone s f = elim (Result-cases (sys.remove s f).0) [
    | inl (a, h) ↦ inl (framed.remove-removes s f h)
    | inr (e, h) ↦ elim (Option-cases (content s f)) [
      | inl absent ↦ inl (framed.remove-fails s f e h ∙ absent)
      | inr (d, there) ↦ inr (s, e, d, there, ap (λ r. (r, (sys.remove s f).1)) h)
    ]
  ]

  -- A success moved the source away.
  abbrev Emptied : Bytes → Result (WriteError E) (Unit {0}) × S → Type 0
  Emptied p (result, s) = result ≡ ok tt → content s p ≡ none

  check-Emptied :
      {A : Type 0} (p : Bytes) (wrap : E → WriteError E) (call : Result E A × S)
      (next : A → S → Result (WriteError E) (Unit {0}) × S)
      → ((a : A) (s : S) → call ≡ (ok a, s) → Emptied p (next a s))
      → Emptied p (check wrap call next)
  unfolding check
  check-Emptied p wrap (ok a, s) next n h = n a s refl h
  check-Emptied p wrap (err e, s) next n h = cc h

  commit-Emptied :
      (s : S) (t : ReplacementTransaction)
      → t.source ≢ t.destination
      → Emptied t.source (commit sys s t)
  unfolding commit
  commit-Emptied s t ne =
      check-Emptied t.source replace_failed (sys.replace_file s t.source t.destination) _ λ a s₁ e.
        let k =
          after content _ (ok a) s₁ t.source none e
            (framed.replace_file-empties s t.source t.destination ne (ap (λ q. q.0) e)) in
        λ h.
          check-Kept content t.source none committed (sys.sync_dir s₁ t.destination_dir) _
            (lawful.sync_dir-keeps s₁ t.destination_dir t.source ∙ k)
            λ _ s k.
              check-Kept content t.source none committed (sync_source sys s t) _
                (sync_source_keeps sys content text lawful s t t.source ∙ k)
                λ _ s k.
                  check-Kept content t.source none committed
                    (sync_created_directory_parents sys s [] t.created_directories) _
                    (syncs_keep sys content text lawful s [] t.created_directories t.source ∙ k)
                    λ _ s k. k

  removing-gone :
      (temp : Bytes) (q : Result (WriteError E) (Unit {0}) × S)
      → Emptied temp q
      → (content (removing sys temp q).1 temp ≡ none)
        ⊎ IsStuck sys content temp (removing sys temp q).1
  unfolding removing
  removing-gone temp (err e, s) h = gone s temp
  removing-gone temp (ok a, s) h = inl (h refl)

  closing-gone :
      (temp : Bytes) (q : Result (WriteError E) (Unit {0}) × S)
      (next : S → Result (WriteError E) (Unit {0}) × S)
      → ((s : S) → Emptied temp (next s))
      → (content (closing_and_removing sys temp q next).1 temp ≡ none)
        ⊎ IsStuck sys content temp (closing_and_removing sys temp q next).1
  unfolding closing_and_removing
  closing-gone temp (err e, s) next n = gone (sys.close_file s temp).1 temp
  closing-gone temp (ok a, s) next n = removing-gone temp (next s) (n s)

module _ {S E R : Type 0} (sys : System S E R) (content : S → Bytes → Option Bytes)
    (text : R → Bytes) (lawful : IsSystem sys content text) (framed : IsFramed sys content) where
  -- From the work on the temporary file on.
  temporary-Left :
      (s : S) (t : ReplacementTransaction) (r : R) (mode : ℕ) (p : Bytes) (v : Option Bytes)
      → t.source ≢ t.destination
      → t.destination ≢ p
      → (t.source ≢ p → content s p ≡ v)
      → (t.source ≡ p → v ≡ none)
      → Left sys content p v (
          closing_and_removing sys t.source
            (fill_temporary sys s t.source r mode)
            (λ s. commit sys s t))
  temporary-Left s t r mode p v apart ne other same = elim (Bool-cases (text_eq t.source p)) [
    | inl e ↦
        let q : t.source ≡ p = (text_eq_iff t.source p).0 e in
        let end =
          (closing_and_removing sys t.source (fill_temporary sys s t.source r mode)
            (λ s. commit sys s t)).1 in
        let absent = same q in
        elim (closing-gone sys content text lawful framed t.source
          (fill_temporary sys s t.source r mode) (λ s. commit sys s t)
          (λ s. commit-Emptied sys content text lawful framed s t apart)) [
            | inl empty ↦ inl (subst (λ x. content end x ≡ v) q (empty ∙ sym absent))
            | inr stuck ↦ inr (absent, subst (λ x. IsStuck sys content x end) q stuck)
          ]
    | inr e ↦
        let q : t.source ≢ p = ground (arith, e, text_eq_iff t.source p) in
        inl (
          closing-Kept sys content text lawful framed t.source p v _ _ q
            (fill_temporary-Kept sys content text lawful framed s t.source r mode p v q (other q))
            λ s k. commit-Kept sys content text lawful framed s t p v q ne k)
  ]

  written-Left :
      (s : S) (path : Bytes) (r : R) (mode : ℕ) (created : List Bytes) (p : Bytes)
      (v : Option Bytes)
      → ((s : S) (d t : Bytes) → (sys.create_temp s d).0 ≡ ok t → t ≢ path)
      → path ≢ p
      → content s p ≡ v
      → Left sys content p v (
          check create_temporary (sys.create_temp s (sys.dir path)) λ temporary s.
            closing_and_removing sys temporary (fill_temporary sys s temporary r mode) λ s.
              commit sys s (record {
                source = temporary;
                destination = path;
                source_directory = sys.dir path;
                destination_dir = sys.dir path;
                created_directories = created;
              }))
  written-Left s path r mode created p v apart ne k =
      let d = sys.dir path in
      check-Left sys content p v create_temporary (sys.create_temp s d) _
        (λ x e. lawful.create_temp-keeps s d p (λ t h. cc (e, h)) ∙ k)
        λ t s₁ e₁.
          let made : (sys.create_temp s d).0 ≡ ok t = ap (λ q. q.0) e₁ in
          temporary-Left s₁
            (record {
              source = t;
              destination = path;
              source_directory = d;
              destination_dir = d;
              created_directories = created;
            })
            r mode p v (apart s d t made) ne
            (λ f. after content _ (ok t) s₁ p v e₁ (
              lawful.create_temp-keeps s d p (λ t' h g. f (ok-injective t t' (sym made ∙ h) ∙ g))
              ∙ k))
            λ q. sym k ∙ ap (content s) (sym q) ∙ framed.create_temp-new s d t made

  -- Whichever call fails, `writeReader` leaves every other file than the destination as it was, and so
  -- no temporary file behind; but for one case: a file that was not there before stays behind where the
  -- last call of all, its removal, failed although it was there. The temporary file is supposed to have
  -- another path than the destination.
  pub write_reader_keeps :
      (s : S) (path : Bytes) (r : R) (file_mode directory_mode : ℕ) (p : Bytes)
      → ((s : S) (d t : Bytes) → (sys.create_temp s d).0 ≡ ok t → t ≢ path)
      → path ≢ p
      → let s' = (write_reader sys s path (some r) file_mode directory_mode).1 in
        (content s' p ≡ content s p) ⊎ ((content s p ≡ none) × IsStuck sys content p s')
  unfolding write_reader
  write_reader_keeps s path r file_mode directory_mode p apart ne =
      elim (Result-cases (validate sys path file_mode directory_mode)) [
        | inr (x, e) ↦ rw (e, write_reader) (inl refl)
        | inl (a, e) ↦
            rw (e, write_reader)
              (proceed-Left sys content p (content s p)
                (create_parent_directories sys s (sys.dir path) directory_mode) _
                (parents_keep sys content text lawful s (sys.dir path) directory_mode p)
                λ created s₁ k₁.
                  written-Left s₁ path r file_mode created p (content s p) apart ne k₁)
      ]
