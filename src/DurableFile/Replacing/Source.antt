-- ===== src/DurableFile/Replacing/Source.antt =====
-- What `replace` leaves at the destination, whichever call fails.
use gouterstellar_platform.Base.{
  if◌then◌else◌, Bool-cases, Result, ok, err, Result-cases, ℕ, ◌≡◌, refl, subst, ◌∙◌, inl, inr,
  Option, some,
}
use gouterstellar_platform.Text.{Bytes, is_empty}
use gouterstellar_platform.DurableFile.Replacing.Defs.{
  System, check, commit, ReplacementTransaction, create_parent_directories,
  validate_path_and_directory_mode, flush_source, replace, close, open_source, flush,
}
use gouterstellar_platform.DurableFile.Replacing.Outcomes.{
  IsSystem, is_visible, Outcome, check-Outcome, commit-Outcome, Hides, proceed-Outcome,
}
use gouterstellar_platform.DurableFile.Replacing.Temporary.{after}
use gouterstellar_platform.DurableFile.Replacing.Checks.{
  parents_keep, parents_hidden, path_hidden, hidden_by,
}

module _ {S E R : Type 0} (sys : System S E R) (content : S → Bytes → Option Bytes)
    (text : R → Bytes) (lawful : IsSystem sys content text) where
  closed_keeps :
      (q : Result E (Unit {0}) × S) (p : Bytes) (v : Option Bytes)
      → content q.1 p ≡ v
      → content (check {B = Unit {0}} close q (λ _ s. (ok tt, s))).1 p ≡ v
  unfolding check
  closed_keeps (ok a, s) p v k = k
  closed_keeps (err e, s) p v k = k

  closed-Hides :
      (q : Result E (Unit {0}) × S) → Hides (check {B = Unit {0}} close q (λ _ s. (ok tt, s))).0
  unfolding check
  closed-Hides (ok a, s) e h = cc h
  closed-Hides (err x, s) e h = hidden_by (close x) e (cc h) refl

  flush_keeps : (s : S) (source p : Bytes) → content (flush_source sys s source).1 p ≡ content s p
  unfolding flush_source
  flush_keeps s source p =
      let synced = lawful.sync_file-keeps s source p in
      let closed = lawful.close_file-keeps (sys.sync_file s source).1 source p ∙ synced in
      elim (Result-cases (sys.sync_file s source).0) [
        | inr (x, e) ↦ rw (e, flush_source) closed
        | inl (a, e) ↦
            rw (e, flush_source)
              (closed_keeps (sys.close_file (sys.sync_file s source).1 source) p (content s p)
                closed)
      ]

  flush-Hides : (s : S) (source : Bytes) → Hides (flush_source sys s source).0
  unfolding flush_source
  flush-Hides s source e = elim (Result-cases (sys.sync_file s source).0) [
    | inr (x, q) ↦ rw (q, flush_source) (λ h. hidden_by (flush x) e (cc h) refl)
    | inl (a, q) ↦
        rw (q, flush_source) (closed-Hides (sys.close_file (sys.sync_file s source).1 source) e)
  ]

  -- Whichever call fails, if the source held some content before, then the destination holds
  -- afterwards what it held before, or all of that content; the second exactly when the result is a
  -- success or a committed error.
  pub replace_whole :
      (s : S) (source destination d : Bytes) (directory_mode : ℕ)
      → content s source ≡ some d
      → let (result, s') = replace sys s source destination directory_mode in
        content s' destination ≡ (if is_visible result then some d else content s destination)
  unfolding replace
  replace_whole s source destination d mode h = elim (Bool-cases (is_empty source)) [
    | inl t ↦ rw (t, replace) refl
    | inr f ↦ elim (Result-cases (validate_path_and_directory_mode sys destination mode)) [
      | inr (x, e) ↦
          rw (f, e, replace, path_hidden sys content text lawful destination mode x e) refl
      | inl (a, e) ↦
          rw (f, e, replace)
            (let v = content s destination in
              let parents = create_parent_directories sys s (sys.dir destination) mode in
              let kept = parents_keep sys content text lawful s (sys.dir destination) mode in
              proceed-Outcome content destination d v parents _
                (parents_hidden sys content text lawful s (sys.dir destination) mode)
                (kept destination)
                λ created s₁ e₁.
                  let k₁ = after content _ (ok created) s₁ destination v e₁ (kept destination) in
                  let h₁ = after content _ (ok created) s₁ source _ e₁ (kept source ∙ h) in
                  check-Outcome content destination d v open_source (sys.open_file s₁ source) _
                    (λ e. refl) (λ e f. lawful.open_file-keeps s₁ source destination ∙ k₁)
                    λ a₂ s₂ e₂.
                      let k₂ =
                        after content _ (ok a₂) s₂ destination v e₂
                          (lawful.open_file-keeps s₁ source destination ∙ k₁) in
                      let h₂ =
                        after content _ (ok a₂) s₂ source _ e₂
                          (lawful.open_file-keeps s₁ source source ∙ h₁) in
                      proceed-Outcome content destination d v (flush_source sys s₂ source) _
                        (flush-Hides s₂ source) (flush_keeps s₂ source destination ∙ k₂)
                        λ a₃ s₃ e₃.
                          let k₃ =
                            after content _ (ok a₃) s₃ destination v e₃
                              (flush_keeps s₂ source destination ∙ k₂) in
                          let h₃ =
                            after content _ (ok a₃) s₃ source _ e₃
                              (flush_keeps s₂ source source ∙ h₂) in
                          let t : ReplacementTransaction = record {
                            source = source;
                            destination = destination;
                            source_directory = sys.dir source;
                            destination_dir = sys.dir destination;
                            created_directories = created;
                          } in
                          subst (λ b. Outcome content destination d b (commit sys s₃ t)) k₃
                            (commit-Outcome sys content text lawful s₃ t d h₃))
    ]
  ]
