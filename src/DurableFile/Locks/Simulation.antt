-- ===== src/DurableFile/Locks/Simulation.antt =====
-- What clients of one lock for each key can do, the goroutines with the registry can do too.
use gouterstellar_platform.Base.{
  Bool-cases, All, All-append, All-parts, ℕ, ◌≡◌, refl, sym, ap, ap₂, subst, ◌∙◌, ◌↔◌, inl, inr,
  false, List, [], ◌∷◌, ◌++◌, map,
}
use gouterstellar_platform.Text.{Bytes}
use gouterstellar_platform.DurableFile.Locks.Registry.{
  DestinationLockRegistry, Goroutine, idle, waiting, holding, unlocked, Move, enters, locks,
  unlocks, leaves, World, Step, goes, Reach,
}
use gouterstellar_platform.DurableFile.Locks.Exclusion.{Reach-Inv, waits_for_holder}
use gouterstellar_platform.DurableFile.Locks.Refinement.{
  Client, away, wants, has, gave_back, Frees, ClientMove, asks, takes, gives_back, returns,
  ClientStep, client, view, map-around, Step-view,
}

-- The goroutines of a client and of those before and after it.
record Parts (gs : List Goroutine) (before : List Client) (c : Client) (after : List Client)
    : Type 0 where
  pub xs : List Goroutine
  pub g : Goroutine
  pub ys : List Goroutine
  pub whole : gs ≡ xs ++ (g ∷ ys)
  pub earlier : map view xs ≡ before
  pub this : view g ≡ c
  pub others : map view ys ≡ after

∷-head : (c d : Client) (cs ds : List Client) → c ∷ cs ≡ d ∷ ds → c ≡ d
∷-head c d cs ds e = cc e

∷-tail : (c d : Client) (cs ds : List Client) → c ∷ cs ≡ d ∷ ds → cs ≡ ds
∷-tail c d cs ds e = cc e

parts :
    (gs : List Goroutine) (before : List Client) (c : Client) (after : List Client)
    → map view gs ≡ before ++ (c ∷ after)
    → Parts gs before c after
parts [] [] c after e = cc e
parts [] (b ∷ before) c after e = cc e
parts (g ∷ gs) [] c after e = record {
  xs = [];
  g = g;
  ys = gs;
  whole = refl;
  earlier = refl;
  this = ∷-head _ _ _ _ e;
  others = ∷-tail _ _ _ _ e;
}
parts (g ∷ gs) (b ∷ before) c after e =
    let p = parts gs before c after (∷-tail _ _ _ _ e) in
    record {
      xs = g ∷ p.xs;
      g = p.g;
      ys = p.ys;
      whole = ap (λ l. g ∷ l) p.whole;
      earlier = ap₂ (λ x l. x ∷ l) (∷-head _ _ _ _ e) p.earlier;
      this = p.this;
      others = p.others;
    }

-- What a goroutine is that looks like this client.
view_away : (g : Goroutine) → view g ≡ away → g ≡ idle
unfolding view
view_away idle e = refl
view_away (waiting k id) e = cc e
view_away (holding k id) e = cc e
view_away (unlocked k id) e = cc e

view_wants : (g : Goroutine) (key : Bytes) → view g ≡ wants key → (id : ℕ) × (g ≡ waiting key id)
unfolding view
view_wants idle key e = cc e
view_wants (waiting k id) key e = (id, cc e)
view_wants (holding k id) key e = cc e
view_wants (unlocked k id) key e = cc e

view_has : (g : Goroutine) (key : Bytes) → view g ≡ has key → (id : ℕ) × (g ≡ holding key id)
unfolding view
view_has idle key e = cc e
view_has (waiting k id) key e = cc e
view_has (holding k id) key e = (id, cc e)
view_has (unlocked k id) key e = cc e

view_gave_back :
    (g : Goroutine) (key : Bytes) → view g ≡ gave_back key → (id : ℕ) × (g ≡ unlocked key id)
unfolding view
view_gave_back idle key e = cc e
view_gave_back (waiting k id) key e = cc e
view_gave_back (holding k id) key e = cc e
view_gave_back (unlocked k id) key e = (id, cc e)

-- A step of a goroutine to one that looks like `d`.
record Answers (r : DestinationLockRegistry) (g : Goroutine) (d : Client) : Type 0 where
  pub registry : DestinationLockRegistry
  pub goroutine : Goroutine
  pub move : Move r g registry goroutine
  pub looks : view goroutine ≡ d

-- A holder among goroutines whose clients do not have the key.
no_holder :
    (xs : List Goroutine) (key : Bytes) (id : ℕ) (ys : List Goroutine)
    → ¬ All (Frees key) (map view (xs ++ (holding key id ∷ ys)))
unfolding view
no_holder [] key id ys a = a.0 refl
no_holder (x ∷ xs) key id ys a = no_holder xs key id ys a.1

-- The lock of a key that no other client has is not locked.
free_lock :
    (n : ℕ) (r : DestinationLockRegistry) (before after : List Goroutine) (key : Bytes) (id : ℕ)
    → Reach n (record { registry = r; goroutines = before ++ (waiting key id ∷ after) })
    → All (Frees key) (map view before ++ map view after)
    → (r.objects id).held ≡ false
unfolding view
free_lock n r before after key id reach frees = elim (Bool-cases (r.objects id).held) [
  | inr f ↦ f
  | inl t ↦
      let (xs, ys, e) = waits_for_holder n r before after key id reach t in
      let (a, b) = All-parts (Frees key) (map view before) (map view after) frees in
      let all =
        subst (All (Frees key)) (sym (map-around before (waiting key id) after))
          (All-append (Frees key) (map view before) (wants key ∷ map view after) a (tt, b)) in
      absurd (no_holder xs key id ys (subst (λ l. All (Frees key) (map view l)) e all))
]

answers :
    (n : ℕ) (r : DestinationLockRegistry) (before after : List Goroutine) (g : Goroutine)
    (c d : Client)
    → Reach n (record { registry = r; goroutines = before ++ (g ∷ after) })
    → view g ≡ c
    → ClientMove (map view before ++ map view after) c d
    → Answers r g d
unfolding view
answers n r before after g _ _ reach e (asks key) =
    subst (λ g. Answers r g (wants key)) (sym (view_away g e))
      (record { registry = _; goroutine = _; move = enters key; looks = refl })
answers n r before after g _ _ reach e (takes key frees) =
    let (id, q) = view_wants g key e in
    let free =
      free_lock n r before after key id
        (subst (λ g. Reach n (record { registry = r; goroutines = before ++ (g ∷ after) })) q reach)
        frees in
    subst (λ g. Answers r g (has key)) (sym q)
      (record { registry = _; goroutine = _; move = locks key id free; looks = refl })
answers n r before after g _ _ reach e (gives_back key) =
    let (id, q) = view_has g key e in
    subst (λ g. Answers r g (gave_back key)) (sym q)
      (record { registry = _; goroutine = _; move = unlocks key id; looks = refl })
answers n r before after g _ _ reach e (returns key) =
    let (id, q) = view_gave_back g key e in
    subst (λ g. Answers r g away) (sym q)
      (record { registry = _; goroutine = _; move = leaves key id; looks = refl })

-- A step of the goroutines to a world that looks like these clients.
abbrev pub StepTo : World → List Client → Type 0
StepTo v cs = (w : World) × Step v w × (map view w.goroutines ≡ cs)

step_to :
    (n : ℕ) (w : World) (before after : List Client) (c d : Client)
    → Reach n w
    → map view w.goroutines ≡ before ++ (c ∷ after)
    → ClientMove (before ++ after) c d
    → StepTo w (before ++ (d ∷ after))
step_to n w before after c d reach e move =
    let p = parts w.goroutines before c after e in
    let world : List Goroutine → World = λ l. record { registry = w.registry; goroutines = l } in
    let a =
      answers n w.registry p.xs p.ys p.g c d (subst (λ l. Reach n (world l)) p.whole reach) p.this
        (subst (λ l. ClientMove l c d) (sym (ap₂ (λ x y. x ++ y) p.earlier p.others)) move) in
    let w' : World = record { registry = a.registry; goroutines = p.xs ++ (a.goroutine ∷ p.ys) } in
    (
      w',
      subst (λ l. Step (world l) w') (sym p.whole) (goes p.xs p.ys a.move),
      map-around p.xs a.goroutine p.ys
          ∙ ap₂ (λ x y. x ++ y) p.earlier (ap₂ (λ x y. x ∷ y) a.looks p.others),
    )

ClientStep-StepTo :
    (n : ℕ) (w : World) (bs cs : List Client)
    → Reach n w
    → map view w.goroutines ≡ bs
    → ClientStep bs cs
    → StepTo w cs
ClientStep-StepTo n w _ _ reach e (client before after move) =
    step_to n w before after _ _ reach e move

-- In every state that goroutines can reach, the steps that they can take are, seen without lock objects,
-- references and registry, exactly those of as many clients of one plain lock for each key, where a
-- client can take a lock whenever no other client has that key, and only then: the registry neither lets two
-- have one key nor blocks one of them for anything else.
pub Step-view_iff :
    (n : ℕ) (w : World) (cs : List Client)
    → Reach n w
    → ClientStep (map view w.goroutines) cs ↔ StepTo w cs
Step-view_iff n w cs reach = (
  ClientStep-StepTo n w (map view w.goroutines) cs reach refl,
  λ (w', step, e). subst (ClientStep (map view w.goroutines)) e (Step-view step (Reach-Inv reach)),
)
