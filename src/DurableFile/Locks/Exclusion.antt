-- ===== src/DurableFile/Locks/Exclusion.antt =====
-- What the locks promise in every reachable state.
use gouterstellar_platform.Base.{
  ◌==◌, ==_iff, Bool-cases, Option-cases, All, ℕ, zero, suc, ◌≤◌, ◌<◌, ◌≡◌, refl, sym, ap, subst,
  ◌∙◌, inl, inr, Bool, true, false, none, List, [], ◌∷◌, ◌++◌, arith,
}
use mathlib.Core.Option.{some-injective}
use gouterstellar_platform.Text.{Bytes}
use gouterstellar_platform.DurableFile.Locks.Registry.{
  DestinationLockRegistry, Goroutine, idle, waiting, holding, unlocked, World, goes, all_idle, init,
  Reach, start, later,
}
use gouterstellar_platform.DurableFile.Locks.Counting.{
  one_if, refers, holds, total, total-append, All-around,
}
use gouterstellar_platform.DurableFile.Locks.Invariant.{Points, Inv}
use gouterstellar_platform.DurableFile.Locks.Moves.{Move-Inv}

idle-Points : (n : ℕ) → All (Points (λ k. none)) (all_idle n)
idle-Points zero = tt
idle-Points (suc n) = (tt, idle-Points n)

pub total-all_idle : (f : Goroutine → ℕ) (n : ℕ) → f idle ≡ 0 → total f (all_idle n) ≡ 0
unfolding total
total-all_idle f zero h = refl
total-all_idle f (suc n) h = omega (arith, total-all_idle f n h)

init-Inv : (n : ℕ) → Inv (init n).registry (init n).goroutines
unfolding init refers holds
init-Inv n = record {
  pointing = idle-Points n;
  counted = λ i. sym (total-all_idle (refers i) n refl);
  owned = λ i. sym (total-all_idle (holds i) n refl);
  known = λ k i e. cc;
  alone = λ k j i e f. cc;
  used = λ k i e. cc;
}

pub Reach-Inv : {n : ℕ} {w : World} → Reach n w → Inv w.registry w.goroutines
Reach-Inv {n} start = init-Inv n
Reach-Inv (later r (goes before after move)) = Move-Inv _ before after move (Reach-Inv r)

-- The goroutines at two places of the list refer to one lock if they have the same key.
two_hold :
    (i : ℕ) (k j : Bytes) (xs ys zs : List Goroutine)
    → 2 ≤ total (holds i) (xs ++ (holding k i ∷ (ys ++ (holding j i ∷ zs))))
unfolding holds total
two_hold i k j xs ys zs = ground (
  arith,
  ==_iff i i,
  total-append (holds i) xs (holding k i) (ys ++ (holding j i ∷ zs)),
  total-append (holds i) ys (holding j i) zs,
)

one_if_small : (b : Bool) → one_if b ≤ 1
one_if_small true = omega arith
one_if_small false = omega arith

one_lock :
    (r : DestinationLockRegistry) (xs ys zs : List Goroutine) (key : Bytes) (i : ℕ)
    → ¬ Inv r (xs ++ (holding key i ∷ (ys ++ (holding key i ∷ zs))))
one_lock r xs ys zs key i inv =
    omega (arith, inv.owned i, two_hold i key key xs ys zs, one_if_small (r.objects i).held)

-- However many goroutines there are and however their steps interleave, no two of them hold the lock
-- of one destination at the same time.
pub exclusive :
    (n : ℕ) (r : DestinationLockRegistry) (xs ys zs : List Goroutine) (key : Bytes) (i j : ℕ)
    → ¬ Reach n
        (record { registry = r; goroutines = xs ++ (holding key i ∷ (ys ++ (holding key j ∷ zs))) })
exclusive n r xs ys zs key i j reach =
    let inv = Reach-Inv reach in
    let (a, b, c) =
      All-around (Points r.locks) xs (holding key i) (ys ++ (holding key j ∷ zs)) inv.pointing in
    let (d, e, f) = All-around (Points r.locks) ys (holding key j) zs c in
    let same : i ≡ j = some-injective _ _ (sym b ∙ e) in
    one_lock r xs ys zs key i
      (subst (λ m. Inv r (xs ++ (holding key i ∷ (ys ++ (holding key m ∷ zs))))) (sym same) inv)

-- Once no goroutine is in `lockDestination` or has still to release its lock, the registry is empty
-- again: no lock is left behind.
pub left_empty :
    (n m : ℕ) (r : DestinationLockRegistry) (key : Bytes)
    → Reach n (record { registry = r; goroutines = all_idle m })
    → r.locks key ≡ none
unfolding refers
left_empty n m r key reach =
    let inv = Reach-Inv reach in
    elim (Option-cases (r.locks key)) [
      | inl e ↦ e
      | inr (id, e) ↦
          absurd
            (omega (arith, inv.used key id e, inv.counted id, total-all_idle (refers id) m refl))
    ]

find_holder :
    (i : ℕ) (gs : List Goroutine)
    → 0 < total (holds i) gs
    → (xs : List Goroutine) × (k : Bytes) × (ys : List Goroutine) × (gs ≡ xs ++ (holding k i ∷ ys))
unfolding total holds
find_holder i [] h = absurd (omega arith)
find_holder i (idle ∷ gs) h =
    let (xs, k, ys, e) = find_holder i gs (omega arith) in (idle ∷ xs, k, ys, ap (λ s. idle ∷ s) e)
find_holder i (waiting j id ∷ gs) h =
    let (xs, k, ys, e) = find_holder i gs (omega arith) in
    (waiting j id ∷ xs, k, ys, ap (λ s. waiting j id ∷ s) e)
find_holder i (unlocked j id ∷ gs) h =
    let (xs, k, ys, e) = find_holder i gs (omega arith) in
    (unlocked j id ∷ xs, k, ys, ap (λ s. unlocked j id ∷ s) e)
find_holder i (holding j id ∷ gs) h = elim (Bool-cases (id == i)) [
  | inl t ↦ ([], j, gs, ap (λ m. holding j m ∷ gs) ((==_iff id i).0 t))
  | inr f ↦
      let (xs, k, ys, e) = find_holder i gs (ground arith) in
      (holding j id ∷ xs, k, ys, ap (λ s. holding j id ∷ s) e)
]

-- A goroutine that cannot lock its destination waits for one that holds that same destination, which
-- is among the goroutines; a destination blocks no other.
pub waits_for_holder :
    (n : ℕ) (r : DestinationLockRegistry) (before after : List Goroutine) (key : Bytes) (id : ℕ)
    → Reach n (record { registry = r; goroutines = before ++ (waiting key id ∷ after) })
    → (r.objects id).held ≡ true
    → (xs : List Goroutine) × (ys : List Goroutine) × (before ++ (waiting key id ∷ after)
        ≡ xs ++ (holding key id ∷ ys))
waits_for_holder n r before after key id reach h =
    let inv = Reach-Inv reach in
    let gs = before ++ (waiting key id ∷ after) in
    let (xs, k, ys, e) = find_holder id gs (omega (arith, inv.owned id, ap one_if h)) in
    let (a, b, c) = All-around (Points r.locks) before (waiting key id) after inv.pointing in
    let (a', b', c') =
      All-around (Points r.locks) xs (holding k id) ys
        (subst (All (Points r.locks)) e inv.pointing) in
    (xs, ys, e ∙ ap (λ j. xs ++ (holding j id ∷ ys)) (inv.alone k key id b' b))
