-- ===== src/DurableFile/Replacing/SuccessTests.antt =====
-- A disk of files and directories, where a call succeeds exactly where its condition holds.
use gouterstellar_platform.Base.{
  leb, if◌then◌else◌, Bool-cases, Result, ok, err, length, ok-injective, ℕ, ◌≡◌, refl, ap, subst,
  ◌∙◌, ◌≢◌, inl, inr, Bool, true, false, not, ◌&&◌, Option, none, some, [], arith,
}
use gouterstellar_platform.Text.{Bytes, codes, text_eq, text_eq_refl, text_ne}
use gouterstellar_platform.DurableFile.Replacing.{
  System, exists, not_exist, stat_error, write_reader,
}
use gouterstellar_platform.DurableFile.Replacing.Outcomes.{IsSystem}
use gouterstellar_platform.DurableFile.Replacing.Healthy.{Above, here, up, IsHealthy}
use gouterstellar_platform.DurableFile.Replacing.Success.{IsTarget, write_reader_completes}
use gouterstellar_platform.DurableFile.Replacing.Tests.{
  set_file, set_same, set_other, temporary, temporary_ne, target, parent_of, parent_IsDir,
}

record Disk : Type 0 where
  pub files : Bytes → Option Bytes
  pub dirs : Bytes → Bool
  pub opened : Bytes → Bool

unfoldable set_flag : (Bytes → Bool) → Bytes → Bool → Bytes → Bool
set_flag f p b q = if text_eq p q then b else f q

set_flag_same : (f : Bytes → Bool) (p : Bytes) (b : Bool) → set_flag f p b p ≡ b
unfolding set_flag
set_flag_same f p b = ground (arith, text_eq_refl p)

set_flag_keeps : (f : Bytes → Bool) (p q : Bytes) → f q ≡ true → set_flag f p true q ≡ true
unfolding set_flag
set_flag_keeps f p q h = ground (arith, h)

-- A call that fails where its condition does not hold.
abbrev guarded : {A : Type 0} → Bool → A → Disk → Disk → Result ℕ A × Disk
guarded true a before after = (ok a, after)
guarded false a before after = (err 5, before)

abbrev put : Disk → Bytes → Option Bytes → Disk
put s p v = record { files = set_file s.files p v; dirs = s.dirs; opened = s.opened }

abbrev is_named : Option Bytes → Bool
is_named none = false
is_named (some d) = true

abbrev can_replace : Disk → Bytes → Bytes → Bool
can_replace s a b = (is_named (s.files a) && s.dirs (parent_of b)) && not (s.dirs b)

abbrev disk : System Disk ℕ Bytes
disk = record {
  stat = λ s p. if s.dirs p then exists else not_exist;
  mkdir_all = λ s d m. (
    ok tt,
    record {
      files = s.files;
      dirs = set_flag (set_flag (set_flag s.dirs (codes "/") true) (codes "/d") true) d true;
      opened = s.opened;
    },
  );
  create_temp = λ s d. guarded (s.dirs d) temporary s (record {
    files = set_file s.files temporary (some []);
    dirs = s.dirs;
    opened = set_flag s.opened temporary true;
  });
  chmod = λ s f m. guarded (s.opened f) tt s s;
  copy = λ s f r. guarded (s.opened f) tt s (put s f (some r));
  open_file = λ s f. (ok tt, s);
  sync_file = λ s f. guarded (s.opened f) tt s s;
  close_file = λ s f. guarded (s.opened f) tt s s;
  remove = λ s f. guarded (is_named (s.files f)) tt s (put s f none);
  replace_file = λ s a b. guarded (can_replace s a b) tt s (put (put s a none) b (s.files a));
  sync_dir = λ s d. guarded (s.dirs d) tt s s;
  dir = parent_of;
  base = λ p. codes "a";
  clean_abs = λ p. some p;
  clean = λ d. d;
}

-- Only "/" exists.
abbrev start : Disk
start = record { files = λ p. none; dirs = λ p. text_eq p (codes "/"); opened = λ p. false }

run :
    {A : Type 0} (b : Bool) (a : A) (before after : Disk)
    → b ≡ true
    → guarded b a before after ≡ (ok a, after)
run true a before after h = refl
run false a before after h = cc h

holds :
    {A : Type 0} (K : Disk → Type 0) (b : Bool) (a : A) (before after : Disk)
    → K before
    → K after
    → K (guarded b a before after).1
holds K true a before after h k = k
holds K false a before after h k = h

holds_ok :
    {A : Type 0} (K : Disk → Type 0) (b : Bool) (a c : A) (before after : Disk)
    → (guarded b a before after).0 ≡ ok c
    → K after
    → K (guarded b a before after).1
holds_ok K true a c before after e k = k
holds_ok K false a c before after e k = cc e

holds_err :
    {A : Type 0} (K : Disk → Type 0) (b : Bool) (a : A) (x : ℕ) (before after : Disk)
    → (guarded b a before after).0 ≡ err x
    → K before
    → K (guarded b a before after).1
holds_err K true a x before after e k = cc e
holds_err K false a x before after e k = k

made_temporary :
    (b : Bool) (before after : Disk) (t : Bytes)
    → (guarded b temporary before after).0 ≡ ok t
    → temporary ≡ t
made_temporary true before after t e = ok-injective temporary t e
made_temporary false before after t e = cc e

made_keeps :
    (b : Bool) (s : Disk) (o : Bytes → Bool) (p : Bytes)
    → let q =
        guarded b temporary s
          (record { files = set_file s.files temporary (some []); dirs = s.dirs; opened = o }) in
      ((t : Bytes) → q.0 ≡ ok t → t ≢ p) → q.1.files p ≡ s.files p
made_keeps true s o p n = set_other s.files temporary p (some []) (n temporary refl)
made_keeps false s o p n = refl

disk-IsSystem : IsSystem disk (λ s. s.files) (λ r. r)
disk-IsSystem = record {
  mkdir_all-keeps = λ s d m p. refl;
  create_temp-keeps = λ s d p n. made_keeps (s.dirs d) s _ p n;
  create_temp-empty = λ s d t e.
      holds_ok (λ w. w.files t ≡ some []) (s.dirs d) temporary t s _ e
        (subst (λ q. set_file s.files temporary (some []) q ≡ some []) (made_temporary _ s _ t e)
          (set_same s.files temporary (some [])));
  chmod-keeps = λ s f m p. holds (λ w. w.files p ≡ s.files p) (s.opened f) tt s s refl refl;
  copy-keeps = λ s f r p n.
      holds (λ w. w.files p ≡ s.files p) (s.opened f) tt s _ refl
        (set_other s.files f p (some r) n);
  copy-fills = λ s f r h e.
      holds_ok (λ w. w.files f ≡ some r) (s.opened f) tt tt s _ e (set_same s.files f (some r));
  open_file-keeps = λ s f p. refl;
  sync_file-keeps = λ s f p. holds (λ w. w.files p ≡ s.files p) (s.opened f) tt s s refl refl;
  close_file-keeps = λ s f p. holds (λ w. w.files p ≡ s.files p) (s.opened f) tt s s refl refl;
  remove-keeps = λ s f p n.
      holds (λ w. w.files p ≡ s.files p) (is_named (s.files f)) tt s _ refl
        (set_other s.files f p none n);
  replace_file-fails =
      λ s a b p e h. holds_err (λ w. w.files p ≡ s.files p) (can_replace s a b) tt e s _ h refl;
  replace_file-moves = λ s a b h.
      holds_ok (λ w. w.files b ≡ s.files a) (can_replace s a b) tt tt s _ h
        (set_same (set_file s.files a none) b (s.files a));
  sync_dir-keeps = λ s d p. holds (λ w. w.files p ≡ s.files p) (s.dirs d) tt s s refl refl;
}

run_ok :
    {A : Type 0} (b : Bool) (a : A) (before after : Disk)
    → b ≡ true
    → (guarded b a before after).0 ≡ ok a
run_ok b a before after h = ap (λ q. q.0) (run b a before after h)

made_above :
    (f : Bytes → Bool) (d x : Bytes)
    → Above parent_of d x
    → set_flag (set_flag (set_flag f (codes "/") true) (codes "/d") true) d true x ≡ true
unfolding parent_of
made_above f _ _ here = set_flag_same _ _ true
made_above f d _ (up x a) = elim (Bool-cases (leb (length x) 2)) [
  | inl e ↦
      rw (e)
        (set_flag_keeps _ d _ (set_flag_keeps _ (codes "/d") _ (set_flag_same f (codes "/") true)))
  | inr e ↦ rw (e) (set_flag_keeps _ d _ (set_flag_same _ (codes "/d") true))
]

disk-IsHealthy :
    IsHealthy disk
      (λ s. s.files)
      (λ s d. s.dirs d ≡ true)
      (λ s p. s.dirs p ≡ false)
      (λ s f. s.opened f ≡ true)
      (codes "new")
disk-IsHealthy = record {
  mkdir_all-makes = λ s d m e. set_flag_same _ d true;
  mkdir_all-above = λ s d m x e a. made_above s.dirs d x a;
  creates = λ s d h. (temporary, run_ok (s.dirs d) temporary s _ h);
  create_temp-opens = λ s d t e.
      holds_ok (λ w. w.opened t ≡ true) (s.dirs d) temporary t s _ e
        (subst (λ q. set_flag s.opened temporary true q ≡ true) (made_temporary _ s _ t e)
          (set_flag_same s.opened temporary true));
  chmods = λ s f m h. run_ok (s.opened f) tt s s h;
  chmod-open = λ s f m h. holds (λ w. w.opened f ≡ true) (s.opened f) tt s s h h;
  copies = λ s f h. run_ok (s.opened f) tt s _ h;
  copy-open = λ s f h. holds (λ w. w.opened f ≡ true) (s.opened f) tt s _ h h;
  syncs_file = λ s f h. run_ok (s.opened f) tt s s h;
  sync_file-open = λ s f h. holds (λ w. w.opened f ≡ true) (s.opened f) tt s s h h;
  closes = λ s f h. run_ok (s.opened f) tt s s h;
  replaces = λ s a b d h k f. run_ok (can_replace s a b) tt s _ (rw (h, k, f) refl);
  syncs_dir = λ s d h. run_ok (s.dirs d) tt s s h;
  create_temp-dirs = λ s d x h. holds (λ w. w.dirs x ≡ true) (s.dirs d) temporary s _ h h;
  chmod-dirs = λ s f m x h. holds (λ w. w.dirs x ≡ true) (s.opened f) tt s s h h;
  copy-dirs = λ s f x h. holds (λ w. w.dirs x ≡ true) (s.opened f) tt s _ h h;
  sync_file-dirs = λ s f x h. holds (λ w. w.dirs x ≡ true) (s.opened f) tt s s h h;
  close_file-dirs = λ s f x h. holds (λ w. w.dirs x ≡ true) (s.opened f) tt s s h h;
  create_temp-free = λ s d x h. holds (λ w. w.dirs x ≡ false) (s.dirs d) temporary s _ h h;
  chmod-free = λ s f m x h. holds (λ w. w.dirs x ≡ false) (s.opened f) tt s s h h;
  copy-free = λ s f x h. holds (λ w. w.dirs x ≡ false) (s.opened f) tt s _ h h;
  sync_file-free = λ s f x h. holds (λ w. w.dirs x ≡ false) (s.opened f) tt s s h h;
  close_file-free = λ s f x h. holds (λ w. w.dirs x ≡ false) (s.opened f) tt s s h h;
  replace_file-dirs = λ s a b x h. holds (λ w. w.dirs x ≡ true) (can_replace s a b) tt s _ h h;
  sync_dir-dirs = λ s d x h. holds (λ w. w.dirs x ≡ true) (s.dirs d) tt s s h h;
}

target-IsTarget : IsTarget disk target 0o600 0o700
unfolding text_eq
target-IsTarget = record {
  named = text_ne _ _ refl;
  no_dot = text_ne _ _ refl;
  file_bits = omega arith;
  directory_bits = omega arith;
}

apart : (s : Disk) (d t : Bytes) → (disk.create_temp s d).0 ≡ ok t → t ≢ target
apart s d t e f = temporary_ne (made_temporary (s.dirs d) s _ t e ∙ f)

told : (d : Bytes) (e : ℕ) → Above parent_of (parent_of target) d → disk.stat start d ≢ stat_error e
told d e a h = ground (arith, h)

target_free : (disk.mkdir_all start (parent_of target) 0o700).1.dirs target ≡ false
unfolding set_flag parent_of text_eq
target_free = refl

-- The directory "/d" is made.
write_reader_completes_example :
    let (result, s) = write_reader disk start target (some (codes "new")) 0o600 0o700 in
    (result ≡ ok tt) × (s.files target ≡ some (codes "new"))
write_reader_completes_example =
    write_reader_completes disk (λ s. s.files) (λ s d. s.dirs d ≡ true) (λ s p. s.dirs p ≡ false)
      (λ s f. s.opened f ≡ true) (λ r. r) disk-IsSystem (codes "new") disk-IsHealthy start target
      0o600 0o700 parent_IsDir target-IsTarget apart told refl target_free
