-- ===== src/DurableFile/Replacing/Checks.antt =====
-- The checks of the arguments and the parent directories.
use gouterstellar_platform.Base.{
  Result, ok, err, ◌>>◌, fail_if, Result-cases, ℕ, ◌≡◌, refl, sym, ap, ◌∙◌, ◌⊎◌, inl, inr, Bool,
  true, false, ◌||◌, Option, Bool-cases, List, length, ◌+◌, zero, suc,
}
use gouterstellar_platform.Text.{Bytes, codes, is_empty, text_eq}
use gouterstellar_platform.DurableFile.Replacing.Defs.{
  System, WriteError, create_parent_directories, missing_directories, validate,
  validate_path_and_directory_mode, path_required, directory_mode_bits, file_mode_bits,
  create_parent, out_of_fuel, check, StatResult, exists, not_exist, stat_error,
}
use gouterstellar_platform.DurableFile.Replacing.Outcomes.{IsSystem, is_visible, Hides}

pub fail_if_err : {X : Type 0} (b : Bool) (x e : X) → fail_if b x ≡ err e → x ≡ e
fail_if_err true x e h = cc h
fail_if_err false x e h = cc h

pub seq_err :
    {X B : Type 0} (q : Result X (Unit {0})) (k : Result X B) (e : X)
    → (q >> k) ≡ err e
    → (q ≡ err e) ⊎ (k ≡ err e)
seq_err (err x) k e h = inl (cc h)
seq_err (ok a) k e h = inr h

pub hidden_by :
    {E : Type 0} (x e : WriteError E)
    → x ≡ e
    → is_visible {A = Unit {0}} (err x) ≡ false
    → is_visible {A = Unit {0}} (err e) ≡ false
hidden_by x e p h = ap (λ y. is_visible {A = Unit {0}} (err y)) (sym p) ∙ h

pub StatResult-cases :
    {E : Type 0} (q : StatResult E)
    → (q ≡ exists) ⊎ ((e : E) × (q ≡ stat_error e)) ⊎ (q ≡ not_exist)
StatResult-cases exists = inl refl
StatResult-cases (stat_error e) = inr (inl (e, refl))
StatResult-cases not_exist = inr (inr refl)

module _ {S E R : Type 0} (sys : System S E R) (content : S → Bytes → Option Bytes)
    (text : R → Bytes) (lawful : IsSystem sys content text) where
  made_keeps :
      (q : Result E (Unit {0}) × S) (missing : List Bytes) (p : Bytes) (v : Option Bytes)
      → content q.1 p ≡ v
      → content (check create_parent q (λ _ s. (ok missing, s))).1 p ≡ v
  unfolding check
  made_keeps (ok a, s) missing p v k = k
  made_keeps (err e, s) missing p v k = k

  made-Hides :
      (q : Result E (Unit {0}) × S) (missing : List Bytes)
      → Hides (check create_parent q (λ _ s. (ok missing, s))).0
  unfolding check
  made-Hides (ok a, s) missing e h = cc h
  made-Hides (err x, s) missing e h = hidden_by (create_parent x) e (cc h) refl

  missing-Hides : (fuel : ℕ) (s : S) (d : Bytes) → Hides (missing_directories sys fuel s d)
  unfolding missing_directories
  missing-Hides zero s d e = λ h. hidden_by out_of_fuel e (cc h) refl
  missing-Hides (suc fuel) s d e = elim (StatResult-cases (sys.stat s d)) [
    | inl q ↦ rw (q, missing_directories) (λ h. cc h)
    | inr (inl (x, q)) ↦
        rw (q, missing_directories) (λ h. hidden_by (create_parent x) e (cc h) refl)
    | inr (inr q) ↦ elim (Bool-cases (text_eq (sys.dir d) d)) [
      | inl t ↦ rw (q, t, missing_directories) (λ h. cc h)
      | inr f ↦ elim (Result-cases (missing_directories sys fuel s (sys.dir d))) [
        | inl (a, r) ↦ rw (q, f, r, missing_directories) (λ h. cc h)
        | inr (x, r) ↦
            rw (q, f, r, missing_directories) (λ h. missing-Hides fuel s (sys.dir d) e (cc (r, h)))
      ]
    ]
  ]

  pub parents_keep :
      (s : S) (directory : Bytes) (mode : ℕ) (p : Bytes)
      → content (create_parent_directories sys s directory mode).1 p ≡ content s p
  unfolding create_parent_directories
  parents_keep s directory mode p =
      elim (Result-cases
        (missing_directories sys (length (sys.clean directory) + 2) s (sys.clean directory))) [
          | inl (a, e) ↦
              rw (e, create_parent_directories)
                (made_keeps (sys.mkdir_all s directory mode) a p (content s p)
                  (lawful.mkdir_all-keeps s directory mode p))
          | inr (x, e) ↦ rw (e, create_parent_directories) refl
        ]

  pub parents_hidden :
      (s : S) (directory : Bytes) (mode : ℕ)
      → Hides (create_parent_directories sys s directory mode).0
  unfolding create_parent_directories
  parents_hidden s directory mode e =
      elim (Result-cases
        (missing_directories sys (length (sys.clean directory) + 2) s (sys.clean directory))) [
          | inl (a, q) ↦
              rw (q, create_parent_directories) (made-Hides (sys.mkdir_all s directory mode) a e)
          | inr (x, q) ↦
              rw (q, create_parent_directories)
                (λ h.
                  missing-Hides (length (sys.clean directory) + 2) s (sys.clean directory) e
                    (q ∙ h))
        ]

  pub path_hidden :
      (path : Bytes) (m : ℕ) (e : WriteError E)
      → validate_path_and_directory_mode sys path m ≡ err e
      → is_visible {A = Unit {0}} (err e) ≡ false
  unfolding validate_path_and_directory_mode
  path_hidden path m e h =
      elim (seq_err (fail_if (is_empty path || text_eq (sys.base path) (codes ".")) path_required) _
        e h) [
          | inl k ↦ hidden_by path_required e (fail_if_err _ _ e k) refl
          | inr k ↦ hidden_by directory_mode_bits e (fail_if_err _ _ e k) refl
        ]

  pub validate_hidden :
      (path : Bytes) (fm m : ℕ) (e : WriteError E)
      → validate sys path fm m ≡ err e
      → is_visible {A = Unit {0}} (err e) ≡ false
  unfolding validate
  validate_hidden path fm m e h =
      elim (seq_err (validate_path_and_directory_mode sys path m) _ e h) [
        | inl k ↦ path_hidden path m e k
        | inr k ↦ hidden_by file_mode_bits e (fail_if_err _ _ e k) refl
      ]
