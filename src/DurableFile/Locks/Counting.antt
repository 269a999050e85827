-- ===== src/DurableFile/Locks/Counting.antt =====
-- Sums over a list of goroutines.
use gouterstellar_platform.Base.{
  ◌==◌, All, ℕ, ◌+◌, ◌≤◌, ◌≡◌, Bool, true, false, List, [], ◌∷◌, ◌++◌, arith,
}
use gouterstellar_platform.DurableFile.Locks.Registry.{Goroutine, idle, waiting, holding, unlocked}

abbrev pub one_if : Bool → ℕ
one_if true = 1
one_if false = 0

-- Whether a goroutine has a reference to a lock, and whether it has locked it.
unfoldable pub refers : ℕ → Goroutine → ℕ
refers i idle = 0
refers i (waiting k id) = one_if (id == i)
refers i (holding k id) = one_if (id == i)
refers i (unlocked k id) = one_if (id == i)

unfoldable pub holds : ℕ → Goroutine → ℕ
holds i (holding k id) = one_if (id == i)
holds i _ = 0

unfoldable pub total : (Goroutine → ℕ) → List Goroutine → ℕ
total f [] = 0
total f (g ∷ gs) = f g + total f gs

pub total-append :
    (f : Goroutine → ℕ) (xs : List Goroutine) (g : Goroutine) (ys : List Goroutine)
    → total f (xs ++ (g ∷ ys)) ≡ f g + (total f xs + total f ys)
unfolding total
total-append f [] g ys = omega arith
total-append f (x ∷ xs) g ys = ground (arith, total-append f xs g ys)

holds_few : (i : ℕ) (g : Goroutine) → holds i g ≤ refers i g
unfolding holds refers
holds_few i idle = omega arith
holds_few i (waiting k id) = omega arith
holds_few i (holding k id) = omega arith
holds_few i (unlocked k id) = omega arith

pub total-holds : (i : ℕ) (gs : List Goroutine) → total (holds i) gs ≤ total (refers i) gs
unfolding total
total-holds i [] = omega arith
total-holds i (g ∷ gs) = ground (arith, holds_few i g, total-holds i gs)

-- A predicate of the list's parts holds of the list, and the other way round.
pub All-around {ℓ} :
    (P : Goroutine → Type ℓ) (xs : List Goroutine) (g : Goroutine) (ys : List Goroutine)
    → All P (xs ++ (g ∷ ys))
    → All P xs × P g × All P ys
All-around P [] g ys h = (tt, h.0, h.1)
All-around P (x ∷ xs) g ys h = let (a, b, c) = All-around P xs g ys h.1 in ((h.0, a), b, c)
