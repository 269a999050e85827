-- ===== src/DurableFile/Locks/Tests.antt =====
-- Two goroutines at one destination.
use gouterstellar_platform.Base.{◌≡◌, refl, true, false, none, List, [], ◌∷◌, ◌++◌, ◌↔◌, map}
use gouterstellar_platform.Text.{Bytes, codes, text_eq}
use gouterstellar_platform.DurableFile.Locks.{
  DestinationLockRegistry, set_held, set_lock, set_object, add_ref, find_or_create, acquire,
  drop_ref, Goroutine, idle, waiting, holding, unlocked, World, enters, locks, unlocks, leaves,
  goes, all_idle, init, Reach, start, later,
}
use gouterstellar_platform.DurableFile.Locks.Refinement.{Client, gave_back, has, view, ClientStep}
use gouterstellar_platform.DurableFile.Locks.Simulation.{StepTo, Step-view_iff}
use gouterstellar_platform.DurableFile.Locks.Exclusion.{exclusive, left_empty, waits_for_holder}

abbrev file : Bytes
file = codes "/a"

abbrev empty : DestinationLockRegistry
empty = (init 2).registry

abbrev entered : DestinationLockRegistry
entered = (acquire empty file).1

abbrev locked : DestinationLockRegistry
locked = set_held entered 0 true

abbrev both : DestinationLockRegistry
both = (acquire locked file).1

first_waits : Reach 2 (record { registry = entered; goroutines = waiting file 0 ∷ idle ∷ [] })
unfolding init acquire find_or_create
first_waits = later start (goes [] (idle ∷ []) (enters file))

first_holds : Reach 2 (record { registry = locked; goroutines = holding file 0 ∷ idle ∷ [] })
unfolding init acquire find_or_create add_ref set_object
first_holds = later first_waits (goes [] (idle ∷ []) (locks file 0 refl))

second_waits :
    Reach 2 (record { registry = both; goroutines = holding file 0 ∷ waiting file 0 ∷ [] })
unfolding init acquire find_or_create add_ref set_object set_held set_lock text_eq
second_waits = later first_holds (goes (holding file 0 ∷ []) [] (enters file))

exclusive_example :
    ¬ Reach 2 (record { registry = both; goroutines = holding file 0 ∷ holding file 0 ∷ [] })
exclusive_example = exclusive 2 both [] [] [] file 0 0

both_held : (both.objects 0).held ≡ true
unfolding init acquire find_or_create add_ref set_object set_held set_lock text_eq
both_held = refl

waits_for_holder_example :
    (xs : List Goroutine) × (ys : List Goroutine) × (holding file 0 ∷ waiting file 0 ∷ []
      ≡ xs ++ (holding file 0 ∷ ys))
waits_for_holder_example =
    waits_for_holder 2 both (holding file 0 ∷ []) [] file 0 second_waits both_held

abbrev released : DestinationLockRegistry
released = drop_ref (set_held locked 0 false) file 0

first_left : Reach 2 (record { registry = released; goroutines = all_idle 2 })
unfolding init acquire find_or_create add_ref set_object set_held set_lock
first_left =
    later (later first_holds (goes [] (idle ∷ []) (unlocks file 0)))
      (goes [] (idle ∷ []) (leaves file 0))

left_empty_example : released.locks file ≡ none
left_empty_example = left_empty 2 2 released file first_left

-- The first goroutine has unlocked its destination.
abbrev free_again : World
free_again = record {
  registry = set_held both 0 false;
  goroutines = unlocked file 0 ∷ waiting file 0 ∷ [];
}

first_unlocked : Reach 2 free_again
first_unlocked = later second_waits (goes [] (waiting file 0 ∷ []) (unlocks file 0))

abbrev second_has : List Client
second_has = gave_back file ∷ has file ∷ []

Step-view_iff_example :
    ClientStep (map view free_again.goroutines) second_has ↔ StepTo free_again second_has
Step-view_iff_example = Step-view_iff 2 free_again second_has first_unlocked
