-- ===== src/DurableFile/Replacing/Healthy.antt =====
-- When the calls of `writeReader` succeed, and what follows for parts of it.
use gouterstellar_platform.Base.{Result, ok, err, ℕ, ◌≡◌, refl, subst, Option, some}
use gouterstellar_platform.Text.{Bytes}
use gouterstellar_platform.DurableFile.Replacing.Defs.{
  System, WriteError, check, proceed, removing, closing_and_removing,
}

abbrev pub Succeeds : {E A : Type 0} → Result E A → Type 0
Succeeds {A = A} r = (a : A) × (r ≡ ok a)

-- A directory itself and those above it.
pub data Above (dir : Bytes → Bytes) (root : Bytes) : Bytes → Type 0 where
  here : Above dir root root
  up : (d : Bytes) → Above dir root d → Above dir root (dir d)

-- What the operating system documents of calls that succeed, each under its condition. `is_dir` says
-- that a path is a directory where the code may work, `is_free` that a file can be put there since no
-- directory is in the way, and `is_open` that the code has a file open with room for what it writes, and
-- `r` is a reader that gives all its bytes without an error: `MkdirAll` leaves the directory with all those
-- above it, a temporary file is made in a directory and open, an open file can be worked on, a file that
-- is there replaces another where no directory is in the way, and a directory can be synced; no call takes
-- a directory away, and the calls on the temporary file put none in the way.
pub record IsHealthy {S E R : Type 0} (sys : System S E R) (content : S → Bytes → Option Bytes)
    (is_dir is_free is_open : S → Bytes → Type 0) (r : R) : Type 0 where
  pub mkdir_all-makes :
      (s : S) (d : Bytes) (m : ℕ)
      → (sys.mkdir_all s d m).0 ≡ ok tt
      → is_dir (sys.mkdir_all s d m).1 d
  pub mkdir_all-above :
      (s : S) (d : Bytes) (m : ℕ) (d' : Bytes)
      → (sys.mkdir_all s d m).0 ≡ ok tt
      → Above sys.dir (sys.clean d) d'
      → is_dir (sys.mkdir_all s d m).1 d'
  pub creates : (s : S) (d : Bytes) → is_dir s d → Succeeds (sys.create_temp s d).0
  pub create_temp-opens :
      (s : S) (d t : Bytes) → (sys.create_temp s d).0 ≡ ok t → is_open (sys.create_temp s d).1 t
  pub chmods : (s : S) (f : Bytes) (m : ℕ) → is_open s f → (sys.chmod s f m).0 ≡ ok tt
  pub chmod-open : (s : S) (f : Bytes) (m : ℕ) → is_open s f → is_open (sys.chmod s f m).1 f
  pub copies : (s : S) (f : Bytes) → is_open s f → (sys.copy s f r).0 ≡ ok tt
  pub copy-open : (s : S) (f : Bytes) → is_open s f → is_open (sys.copy s f r).1 f
  pub syncs_file : (s : S) (f : Bytes) → is_open s f → (sys.sync_file s f).0 ≡ ok tt
  pub sync_file-open : (s : S) (f : Bytes) → is_open s f → is_open (sys.sync_file s f).1 f
  pub closes : (s : S) (f : Bytes) → is_open s f → (sys.close_file s f).0 ≡ ok tt
  pub replaces :
      (s : S) (a b d : Bytes)
      → content s a ≡ some d
      → is_dir s (sys.dir b)
      → is_free s b
      → (sys.replace_file s a b).0 ≡ ok tt
  pub syncs_dir : (s : S) (d : Bytes) → is_dir s d → (sys.sync_dir s d).0 ≡ ok tt
  pub create_temp-dirs : (s : S) (d x : Bytes) → is_dir s x → is_dir (sys.create_temp s d).1 x
  pub chmod-dirs :
      (s : S) (f : Bytes) (m : ℕ) (x : Bytes) → is_dir s x → is_dir (sys.chmod s f m).1 x
  pub copy-dirs : (s : S) (f x : Bytes) → is_dir s x → is_dir (sys.copy s f r).1 x
  pub sync_file-dirs : (s : S) (f x : Bytes) → is_dir s x → is_dir (sys.sync_file s f).1 x
  pub close_file-dirs : (s : S) (f x : Bytes) → is_dir s x → is_dir (sys.close_file s f).1 x
  pub create_temp-free : (s : S) (d x : Bytes) → is_free s x → is_free (sys.create_temp s d).1 x
  pub chmod-free :
      (s : S) (f : Bytes) (m : ℕ) (x : Bytes) → is_free s x → is_free (sys.chmod s f m).1 x
  pub copy-free : (s : S) (f x : Bytes) → is_free s x → is_free (sys.copy s f r).1 x
  pub sync_file-free : (s : S) (f x : Bytes) → is_free s x → is_free (sys.sync_file s f).1 x
  pub close_file-free : (s : S) (f x : Bytes) → is_free s x → is_free (sys.close_file s f).1 x
  pub replace_file-dirs : (s : S) (a b x : Bytes) → is_dir s x → is_dir (sys.replace_file s a b).1 x
  pub sync_dir-dirs : (s : S) (d x : Bytes) → is_dir s x → is_dir (sys.sync_dir s d).1 x

-- What holds of the state of a pair.
pub moved : {S X : Type 0} (K : S → Type 0) (q : X × S) (x : X) (s : S) → q ≡ (x, s) → K q.1 → K s
moved K q x s e k = subst (λ y. K y.1) e k

module _ {S E : Type 0} where
  pub check-Succeeds :
      {A B : Type 0} (wrap : E → WriteError E) (call : Result E A × S)
      (next : A → S → Result (WriteError E) B × S)
      → Succeeds call.0
      → ((a : A) (s : S) → call ≡ (ok a, s) → Succeeds (next a s).0)
      → Succeeds (check wrap call next).0
  unfolding check
  check-Succeeds wrap (ok a, s) next h n = n a s refl
  check-Succeeds wrap (err e, s) next (a, h) n = cc h

  pub check-Holds :
      {A B : Type 0} (K : S → Type 0) (wrap : E → WriteError E) (call : Result E A × S)
      (next : A → S → Result (WriteError E) B × S)
      → K call.1
      → ((a : A) (s : S) → K s → K (next a s).1)
      → K (check wrap call next).1
  unfolding check
  check-Holds K wrap (ok a, s) next k n = n a s k
  check-Holds K wrap (err e, s) next k n = k

  pub proceed-Succeeds :
      {A B : Type 0} (part : Result (WriteError E) A × S)
      (next : A → S → Result (WriteError E) B × S)
      → Succeeds part.0
      → ((a : A) (s : S) → part ≡ (ok a, s) → Succeeds (next a s).0)
      → Succeeds (proceed part next).0
  unfolding proceed
  proceed-Succeeds (ok a, s) next h n = n a s refl
  proceed-Succeeds (err e, s) next (a, h) n = cc h

module _ {S E R : Type 0} (sys : System S E R) where
  removing-Succeeds :
      (temporary : Bytes) (part : Result (WriteError E) (Unit {0}) × S)
      → Succeeds part.0
      → Succeeds (removing sys temporary part).0
  unfolding removing
  removing-Succeeds temporary (ok a, s) h = (tt, refl)
  removing-Succeeds temporary (err e, s) (a, h) = cc h

  pub closing-Succeeds :
      (temporary : Bytes) (part : Result (WriteError E) (Unit {0}) × S)
      (next : S → Result (WriteError E) (Unit {0}) × S)
      → Succeeds part.0
      → ((s : S) → part ≡ (ok tt, s) → Succeeds (next s).0)
      → Succeeds (closing_and_removing sys temporary part next).0
  unfolding closing_and_removing
  closing-Succeeds temporary (ok tt, s) next h n = removing-Succeeds temporary (next s) (n s refl)
  closing-Succeeds temporary (err e, s) next (a, h) n = cc h
