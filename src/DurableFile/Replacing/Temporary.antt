-- ===== src/DurableFile/Replacing/Temporary.antt =====
-- The work on the temporary file, and the deferred function.
use gouterstellar_platform.Base.{
  Result, ok, err, ℕ, ◌≡◌, refl, sym, ap, ◌∙◌, ◌≢◌, ◌⊎◌, inl, inr, false, Option, some, [],
}
use gouterstellar_platform.Text.{Bytes}
use gouterstellar_platform.DurableFile.Replacing.Defs.{
  System, WriteError, check, removing, closing_and_removing, fill_temporary, set_mode,
  write_temporary, flush, close,
}
use gouterstellar_platform.DurableFile.Replacing.Outcomes.{IsSystem, is_visible, Outcome}

pub after :
    {S X : Type 0} (content : S → Bytes → Option Bytes) (call : X × S) (a : X) (s : S) (p : Bytes)
    (v : Option Bytes)
    → call ≡ (a, s)
    → content call.1 p ≡ v
    → content s p ≡ v
after content call a s p v e k = ap (λ q. content q.1 p) (sym e) ∙ k

module _ {S E : Type 0} (content : S → Bytes → Option Bytes) where
  -- The work on a file `temp`, before the replacement: `path` is as it was, no error says that the
  -- replacement took place, and after success `temp` holds `d`.
  pub record Filled (path temp d : Bytes) (before : Option Bytes)
      (q : Result (WriteError E) (Unit {0}) × S) : Type 0 where
    pub same : content q.1 path ≡ before
    pub filled : q.0 ≡ ok tt → content q.1 temp ≡ some d
    pub hidden : (q.0 ≡ ok tt) ⊎ (is_visible q.0 ≡ false)

  check-Filled :
      {A : Type 0} (path temp d : Bytes) (before : Option Bytes) (wrap : E → WriteError E)
      (call : Result E A × S) (next : A → S → Result (WriteError E) (Unit {0}) × S)
      → ((e : E) → is_visible {A = Unit {0}} (err (wrap e)) ≡ false)
      → content call.1 path ≡ before
      → ((a : A) (s : S) → call ≡ (ok a, s) → Filled path temp d before (next a s))
      → Filled path temp d before (check wrap call next)
  unfolding check
  check-Filled path temp d before wrap (err e, s) next w k n = record {
    same = k;
    filled = λ f. cc;
    hidden = inr (w e);
  }
  check-Filled path temp d before wrap (ok a, s) next w k n = n a s refl

module _ {S E R : Type 0} (sys : System S E R) (content : S → Bytes → Option Bytes)
    (text : R → Bytes) (lawful : IsSystem sys content text) where
  pub fill_temporary-Filled :
      (s : S) (temp path : Bytes) (r : R) (mode : ℕ)
      → temp ≢ path
      → content s temp ≡ some []
      → Filled content path temp (text r) (content s path) (fill_temporary sys s temp r mode)
  unfolding fill_temporary
  fill_temporary-Filled s temp path r mode ne empty =
      let b = content s path in
      check-Filled content path temp (text r) b set_mode (sys.chmod s temp mode) _ (λ e. refl)
        (lawful.chmod-keeps s temp mode path)
        λ a₁ s₁ e₁.
          let k₁ = after content _ (ok a₁) s₁ path b e₁ (lawful.chmod-keeps s temp mode path) in
          let t₁ =
            after content _ (ok a₁) s₁ temp _ e₁ (lawful.chmod-keeps s temp mode temp ∙ empty) in
          check-Filled content path temp (text r) b write_temporary (sys.copy s₁ temp r) _
            (λ e. refl) (lawful.copy-keeps s₁ temp r path ne ∙ k₁)
            λ a₂ s₂ e₂.
              let k₂ =
                after content _ (ok a₂) s₂ path b e₂ (lawful.copy-keeps s₁ temp r path ne ∙ k₁) in
              let t₂ =
                after content _ (ok a₂) s₂ temp _ e₂
                  (lawful.copy-fills s₁ temp r t₁ (ap (λ q. q.0) e₂)) in
              check-Filled content path temp (text r) b flush (sys.sync_file s₂ temp) _ (λ e. refl)
                (lawful.sync_file-keeps s₂ temp path ∙ k₂)
                λ a₃ s₃ e₃.
                  let k₃ =
                    after content _ (ok a₃) s₃ path b e₃
                      (lawful.sync_file-keeps s₂ temp path ∙ k₂) in
                  let t₃ =
                    after content _ (ok a₃) s₃ temp _ e₃
                      (lawful.sync_file-keeps s₂ temp temp ∙ t₂) in
                  check-Filled content path temp (text r) b close (sys.close_file s₃ temp) _
                    (λ e. refl) (lawful.close_file-keeps s₃ temp path ∙ k₃)
                    λ a₄ s₄ e₄. record {
                      same =
                          after content _ (ok a₄) s₄ path b e₄
                            (lawful.close_file-keeps s₃ temp path ∙ k₃);
                      filled = λ _.
                          after content _ (ok a₄) s₄ temp _ e₄
                            (lawful.close_file-keeps s₃ temp temp ∙ t₃);
                      hidden = inl refl;
                    }

  removing-Outcome :
      (path temp d : Bytes) (before : Option Bytes) (q : Result (WriteError E) (Unit {0}) × S)
      → temp ≢ path
      → Outcome content path d before q
      → Outcome content path d before (removing sys temp q)
  unfolding removing
  removing-Outcome path temp d before (err e, s) ne h = lawful.remove-keeps s temp path ne ∙ h
  removing-Outcome path temp d before (ok _, s) ne h = h

  pub closing-Outcome :
      (path temp d : Bytes) (before : Option Bytes) (q : Result (WriteError E) (Unit {0}) × S)
      (next : S → Result (WriteError E) (Unit {0}) × S)
      → temp ≢ path
      → Filled content path temp d before q
      → ((s : S)
          → content s path ≡ before
          → content s temp ≡ some d
          → Outcome content path d before (next s))
      → Outcome content path d before (closing_and_removing sys temp q next)
  unfolding closing_and_removing
  closing-Outcome path temp d before (err e, s) next ne f n = elim f.hidden [
    | inl o ↦ cc
    | inr h ↦ rw (h) (
        lawful.remove-keeps (sys.close_file s temp).1 temp path ne
        ∙ lawful.close_file-keeps s temp path
        ∙ f.same)
  ]
  closing-Outcome path temp d before (ok _, s) next ne f n =
      removing-Outcome path temp d before (next s) ne (n s f.same (f.filled refl))
