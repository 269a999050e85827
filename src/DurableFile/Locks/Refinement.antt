-- ===== src/DurableFile/Locks/Refinement.antt =====
-- The registry and one lock for each key: whatever the goroutines do, the abstract system can do too,
-- in which there are no lock objects, references or registry.
use gouterstellar_platform.Base.{
  ==_iff, All, All-append, ℕ, ◌≡◌, refl, sym, ap, subst, ◌∙◌, ◌≢◌, false, Option, some, List, [],
  ◌∷◌, ◌++◌, map, arith,
}
use mathlib.Core.Option.{some-injective}
use gouterstellar_platform.Text.{Bytes}
use gouterstellar_platform.DurableFile.Locks.Registry.{
  DestinationLockRegistry, Goroutine, idle, waiting, holding, unlocked, Move, enters, locks,
  unlocks, leaves, World, Step, goes,
}
use gouterstellar_platform.DurableFile.Locks.Counting.{
  one_if, holds, total, total-append, All-around,
}
use gouterstellar_platform.DurableFile.Locks.Invariant.{Points, Inv}

-- Where a goroutine stands: it does nothing, wants the lock of a key, has it, or has given it back and
-- not returned yet.
pub data Client : Type 0 where
  away : Client
  wants has gave_back : Bytes → Client

abbrev pub Frees : Bytes → Client → Type 0
Frees key (has k) = k ≢ key
Frees key _ = Unit

-- One step of one client among the others: a lock is taken only where no other client has that key.
pub data ClientMove (others : List Client) : Client → Client → Type 0 where
  asks : (key : Bytes) → ClientMove others away (wants key)
  takes : (key : Bytes) → All (Frees key) others → ClientMove others (wants key) (has key)
  gives_back : (key : Bytes) → ClientMove others (has key) (gave_back key)
  returns : (key : Bytes) → ClientMove others (gave_back key) away

pub data ClientStep : List Client → List Client → Type 0 where
  client :
      {c d : Client} (before after : List Client)
      → ClientMove (before ++ after) c d
      → ClientStep (before ++ (c ∷ after)) (before ++ (d ∷ after))

-- What the abstract system sees of a goroutine.
unfoldable pub view : Goroutine → Client
view idle = away
view (waiting k id) = wants k
view (holding k id) = has k
view (unlocked k id) = gave_back k

pub map-around :
    (xs : List Goroutine) (g : Goroutine) (ys : List Goroutine)
    → map view (xs ++ (g ∷ ys)) ≡ map view xs ++ (view g ∷ map view ys)
map-around [] g ys = refl
map-around (x ∷ xs) g ys = ap (λ l. view x ∷ l) (map-around xs g ys)

-- A free lock has no holder, so no goroutine has its key.
free_of :
    (m : Bytes → Option ℕ) (key : Bytes) (id : ℕ) (gs : List Goroutine)
    → m key ≡ some id
    → All (Points m) gs
    → total (holds id) gs ≡ 0
    → All (Frees key) (map view gs)
unfolding view total holds
free_of m key id [] e p z = tt
free_of m key id (idle ∷ gs) e p z = (tt, free_of m key id gs e p.1 (omega arith))
free_of m key id (waiting k i ∷ gs) e p z = (tt, free_of m key id gs e p.1 (omega arith))
free_of m key id (unlocked k i ∷ gs) e p z = (tt, free_of m key id gs e p.1 (omega arith))
free_of m key id (holding k i ∷ gs) e p z = (
  λ q. ground (arith, ==_iff i id, some-injective _ _ (sym p.0 ∙ ap m q ∙ e)),
  free_of m key id gs e p.1 (omega arith),
)

no_holders :
    (r : DestinationLockRegistry) (before after : List Goroutine) (key : Bytes) (id : ℕ)
    → (r.objects id).held ≡ false
    → Inv r (before ++ (waiting key id ∷ after))
    → (total (holds id) before ≡ 0) × (total (holds id) after ≡ 0)
unfolding holds
no_holders r before after key id free inv =
    let none_held = ap one_if free in
    omega (arith, inv.owned id, total-append (holds id) before (waiting key id) after)

-- Each move of a goroutine is a move of its client.
Move-view :
    {r r' : DestinationLockRegistry} {g g' : Goroutine} (before after : List Goroutine)
    → Move r g r' g'
    → Inv r (before ++ (g ∷ after))
    → ClientMove (map view before ++ map view after) (view g) (view g')
unfolding view
Move-view before after (enters key) inv = asks key
Move-view {r} before after (locks key id free) inv =
    let (a, b, c) = All-around (Points r.locks) before (waiting key id) after inv.pointing in
    let (x, y) = no_holders r before after key id free inv in
    takes key (
      All-append (Frees key) (map view before) (map view after)
        (free_of r.locks key id before b a x) (free_of r.locks key id after b c y))
Move-view before after (unlocks key id) inv = gives_back key
Move-view before after (leaves key id) inv = returns key

pub Step-view :
    {v w : World}
    → Step v w
    → Inv v.registry v.goroutines
    → ClientStep (map view v.goroutines) (map view w.goroutines)
Step-view (goes {g = g} {g' = g'} before after move) inv =
    subst (λ l. ClientStep l (map view (before ++ (g' ∷ after)))) (sym (map-around before g after))
      (subst (ClientStep (map view before ++ (view g ∷ map view after)))
        (sym (map-around before g' after))
        (client (map view before) (map view after) (Move-view before after move inv)))
