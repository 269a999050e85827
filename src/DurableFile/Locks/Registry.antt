-- ===== src/DurableFile/Locks/Registry.antt =====
-- The registry and the two halves of `lockDestination`: taking a reference and the lock, and what
-- the returned function does. The lock objects lie in a store, by their addresses.
use gouterstellar_platform.Base.{
  ◌==◌, if◌then◌else◌, ℕ, zero, suc, ◌-◌, ◌≡◌, Bool, true, false, Option, none, some, List, [], ◌∷◌,
  ◌++◌,
}
use gouterstellar_platform.Text.{Bytes, text_eq}

pub record DestinationLock : Type 0 where
  -- whether `mu` is locked
  pub held : Bool
  pub refs : ℕ

-- `locks` is the map of the source; `fresh` is the next address that `&destinationLock{}` gives.
pub record DestinationLockRegistry : Type 0 where
  pub locks : Bytes → Option ℕ
  pub objects : ℕ → DestinationLock
  pub fresh : ℕ

-- `locks[key] = value`, and `delete(locks, key)` for `none`.
unfoldable pub set_lock : (Bytes → Option ℕ) → Bytes → Option ℕ → Bytes → Option ℕ
set_lock locks key value k = if text_eq key k then value else locks k

unfoldable pub set_object : (ℕ → DestinationLock) → ℕ → DestinationLock → ℕ → DestinationLock
set_object objects id lock i = if id == i then lock else objects i

abbrev pub new_lock : DestinationLock
new_lock = record { held = false; refs = 0 }

-- What the key of a path is made with: `filepath.Abs`, `filepath.Clean`, `strings.ToLower`, and
-- whether the system is Windows.
pub record Paths : Type 0 where
  pub abs : Bytes → Option Bytes
  pub clean : Bytes → Bytes
  pub to_lower : Bytes → Bytes
  pub windows : Bool

abbrev pub or_clean : Paths → Bytes → Option Bytes → Bytes
or_clean paths path none = paths.clean path
or_clean paths path (some a) = a

unfoldable pub lock_key : Paths → Bytes → Bytes
lock_key paths path =
    let key = or_clean paths path (paths.abs path) in
    if paths.windows then paths.to_lower key else key

-- `lock := locks[key]`, made and put there where it is nil.
unfoldable pub find_or_create : DestinationLockRegistry → Bytes → ℕ × DestinationLockRegistry
find_or_create r key = elim (r.locks key) [
  | some id ↦ (id, r)
  | none ↦ (
    r.fresh,
    record {
      locks = set_lock r.locks key (some r.fresh);
      objects = set_object r.objects r.fresh new_lock;
      fresh = suc r.fresh;
    },
  )
]

-- `lock.refs++`.
unfoldable pub add_ref : DestinationLockRegistry → ℕ → DestinationLockRegistry
add_ref r id = record r {
  objects = set_object r.objects id (record (r.objects id) { refs = suc (r.objects id).refs });
}

-- The first section under the registry's mutex.
unfoldable pub acquire : DestinationLockRegistry → Bytes → ℕ × DestinationLockRegistry
acquire r key = let (id, r') = find_or_create r key in (id, add_ref r' id)

-- `lock.mu.Lock()` where it does not block, and `lock.mu.Unlock()`.
unfoldable pub set_held : DestinationLockRegistry → ℕ → Bool → DestinationLockRegistry
set_held r id b = record r {
  objects = set_object r.objects id (record (r.objects id) { held = b });
}

-- The section of the returned function under the registry's mutex. The caller has a reference, so
-- `refs` is not 0 before.
unfoldable pub drop_ref : DestinationLockRegistry → Bytes → ℕ → DestinationLockRegistry
drop_ref r key id =
    let refs = (r.objects id).refs - 1 in
    record r {
      objects = set_object r.objects id (record (r.objects id) { refs = refs });
      locks = if refs == 0 then set_lock r.locks key none else r.locks;
    }

-- Where a goroutine stands in `lockDestination` or in the function that it returned.
pub data Goroutine : Type 0 where
  idle : Goroutine
  waiting holding unlocked : Bytes → ℕ → Goroutine

-- One atomic step of a goroutine.
pub data Move (r : DestinationLockRegistry)
    : Goroutine → DestinationLockRegistry → Goroutine → Type 0 where
  enters : (key : Bytes) → Move r idle (acquire r key).1 (waiting key (acquire r key).0)
  locks :
      (key : Bytes) (id : ℕ)
      → (r.objects id).held ≡ false
      → Move r (waiting key id) (set_held r id true) (holding key id)
  unlocks : (key : Bytes) (id : ℕ) → Move r (holding key id) (set_held r id false) (unlocked key id)
  leaves : (key : Bytes) (id : ℕ) → Move r (unlocked key id) (drop_ref r key id) idle

pub record World : Type 0 where
  pub registry : DestinationLockRegistry
  pub goroutines : List Goroutine

-- Any goroutine may take the next step.
pub data Step : World → World → Type 0 where
  goes :
      {r r' : DestinationLockRegistry} {g g' : Goroutine} (before after : List Goroutine)
      → Move r g r' g'
      → Step
          (record { registry = r; goroutines = before ++ (g ∷ after) })
          (record { registry = r'; goroutines = before ++ (g' ∷ after) })

abbrev pub all_idle : ℕ → List Goroutine
all_idle zero = []
all_idle (suc n) = idle ∷ all_idle n

-- The registry that the package starts with, and goroutines of any number.
unfoldable pub init : ℕ → World
init n = record {
  registry = record { locks = λ k. none; objects = λ i. new_lock; fresh = 0 };
  goroutines = all_idle n;
}

pub data Reach (n : ℕ) : World → Type 0 where
  start : Reach n (init n)
  later : {v w : World} → Reach n v → Step v w → Reach n w
