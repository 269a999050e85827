-- ===== src/DurableFile/Locks/Invariant.antt =====
-- The well-formedness of the registry, and that every step keeps it.
use gouterstellar_platform.Base.{
  Bool-cases, All, All-append, ℕ, ◌+◌, ◌≤◌, ◌<◌, ◌≡◌, refl, sym, ap, ◌∙◌, ◌≢◌, inl, inr, Option,
  none, some, List, [], ◌∷◌, ◌++◌, arith,
}
use mathlib.Core.Option.{some-injective}
use gouterstellar_platform.Text.{Bytes, text_eq, text_eq_iff}
use gouterstellar_platform.DurableFile.Locks.Registry.{
  DestinationLock, DestinationLockRegistry, set_lock, Goroutine, idle, waiting, holding, unlocked,
}
use gouterstellar_platform.DurableFile.Locks.Counting.{
  one_if, refers, holds, total, total-append, All-around,
}

-- A goroutine with a reference has it to the lock that is registered under its key.
abbrev pub Points : (Bytes → Option ℕ) → Goroutine → Type 0
Points m idle = Unit
Points m (waiting k id) = m k ≡ some id
Points m (holding k id) = m k ≡ some id
Points m (unlocked k id) = m k ≡ some id

pub record Inv (r : DestinationLockRegistry) (gs : List Goroutine) : Type 0 where
  pub pointing : All (Points r.locks) gs
  -- the references that a lock counts are those that the goroutines have
  pub counted : (i : ℕ) → (r.objects i).refs ≡ total (refers i) gs
  -- a locked lock has one goroutine that locked it, another has none
  pub owned : (i : ℕ) → one_if (r.objects i).held ≡ total (holds i) gs
  pub known : (k : Bytes) (i : ℕ) → r.locks k ≡ some i → i < r.fresh
  pub alone : (k j : Bytes) (i : ℕ) → r.locks k ≡ some i → r.locks j ≡ some i → k ≡ j
  pub used : (k : Bytes) (i : ℕ) → r.locks k ≡ some i → 0 < (r.objects i).refs

-- Putting one goroutine in another's place.
pub around-All :
    (P : Goroutine → Type 0) (xs : List Goroutine) (g : Goroutine) (ys : List Goroutine)
    → All P xs
    → P g
    → All P ys
    → All P (xs ++ (g ∷ ys))
around-All P xs g ys a b c = All-append P xs (g ∷ ys) a (b, c)

-- No goroutine refers to an address that is not yet given out.
pub refers_known :
    (m : Bytes → Option ℕ) (n i : ℕ) (gs : List Goroutine)
    → ((k : Bytes) (i : ℕ) → m k ≡ some i → i < n)
    → All (Points m) gs
    → n ≤ i
    → total (refers i) gs ≡ 0
unfolding total refers
refers_known m n i [] known h le = refl
refers_known m n i (idle ∷ gs) known h le = ground (arith, refers_known m n i gs known h.1)
refers_known m n i (waiting k id ∷ gs) known h le =
    ground (arith, known k id h.0, refers_known m n i gs known h.1)
refers_known m n i (holding k id ∷ gs) known h le =
    ground (arith, known k id h.0, refers_known m n i gs known h.1)
refers_known m n i (unlocked k id ∷ gs) known h le =
    ground (arith, known k id h.0, refers_known m n i gs known h.1)

-- A change of the map that keeps what the goroutines look up.
pub Points-kept :
    (m m' : Bytes → Option ℕ) (gs : List Goroutine)
    → ((k : Bytes) (id : ℕ) → 0 < total (refers id) gs → m k ≡ some id → m' k ≡ some id)
    → All (Points m) gs
    → All (Points m') gs
unfolding total refers
Points-kept m m' [] keep a = tt
Points-kept m m' (idle ∷ gs) keep a =
    (tt, Points-kept m m' gs (λ k id lt. keep k id (ground arith)) a.1)
Points-kept m m' (waiting k id ∷ gs) keep a =
    (keep k id (ground arith) a.0, Points-kept m m' gs (λ j i lt. keep j i (ground arith)) a.1)
Points-kept m m' (holding k id ∷ gs) keep a =
    (keep k id (ground arith) a.0, Points-kept m m' gs (λ j i lt. keep j i (ground arith)) a.1)
Points-kept m m' (unlocked k id ∷ gs) keep a =
    (keep k id (ground arith) a.0, Points-kept m m' gs (λ j i lt. keep j i (ground arith)) a.1)

-- Putting in a key that was not there.
pub point_new :
    (m : Bytes → Option ℕ) (key k : Bytes) (i id : ℕ)
    → m key ≡ none
    → m k ≡ some id
    → set_lock m key (some i) k ≡ some id
unfolding set_lock
point_new m key k i id h e = elim (Bool-cases (text_eq key k)) [
  | inl t ↦ cc ((text_eq_iff key k).0 t)
  | inr f ↦ ground arith
]

-- Deleting the key of a lock that no goroutine refers to.
pub point_gone :
    (m : Bytes → Option ℕ) (key k : Bytes) (i id : ℕ)
    → m key ≡ some i
    → m k ≡ some id
    → id ≢ i
    → set_lock m key none k ≡ some id
unfolding set_lock
point_gone m key k i id h e z = elim (Bool-cases (text_eq key k)) [
  | inl t ↦ absurd (z (some-injective _ _ (sym e ∙ ap m (sym ((text_eq_iff key k).0 t)) ∙ h)))
  | inr f ↦ ground arith
]

module _ (r : DestinationLockRegistry) (xs ys : List Goroutine) where
  -- A move that leaves the map as it is keeps the invariant if the counts agree.
  pub kept :
      (g g' : Goroutine) (objects : ℕ → DestinationLock)
      → Inv r (xs ++ (g ∷ ys))
      → Points r.locks g'
      → ((i : ℕ) → (objects i).refs + refers i g ≡ (r.objects i).refs + refers i g')
      → ((i : ℕ) → one_if (objects i).held + holds i g ≡ one_if (r.objects i).held + holds i g')
      → ((k : Bytes) (i : ℕ) → r.locks k ≡ some i → 0 < (objects i).refs)
      → Inv (record r { objects = objects }) (xs ++ (g' ∷ ys))
  kept g g' objects inv p rs hs us =
      let (a, b, c) = All-around (Points r.locks) xs g ys inv.pointing in
      record {
        pointing = around-All (Points r.locks) xs g' ys a p c;
        counted = λ i. omega (
          arith,
          inv.counted i,
          rs i,
          total-append (refers i) xs g ys,
          total-append (refers i) xs g' ys,
        );
        owned = λ i. omega (
          arith,
          inv.owned i,
          hs i,
          total-append (holds i) xs g ys,
          total-append (holds i) xs g' ys,
        );
        known = inv.known;
        alone = inv.alone;
        used = us;
      }
