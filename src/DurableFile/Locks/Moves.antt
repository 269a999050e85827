-- ===== src/DurableFile/Locks/Moves.antt =====
-- Every move of a goroutine keeps the registry well formed.
use gouterstellar_platform.Base.{
  ◌==◌, ==_iff, Bool-cases, Option-cases, ℕ, suc, ◌+◌, ◌-◌, ◌≤◌, ◌≡◌, refl, sym, ap, subst, ◌∙◌,
  ◌⊎◌, inl, inr, true, false, Option, none, some, List, ◌∷◌, ◌++◌, arith,
}
use mathlib.Core.Option.{some-injective}
use gouterstellar_platform.Text.{Bytes, text_eq, text_eq_iff, text_eq_refl}
use gouterstellar_platform.DurableFile.Locks.Registry.{
  DestinationLockRegistry, set_lock, set_object, new_lock, find_or_create, add_ref, acquire,
  set_held, drop_ref, Goroutine, idle, waiting, holding, unlocked, Move, enters, locks, unlocks,
  leaves,
}
use gouterstellar_platform.DurableFile.Locks.Counting.{
  refers, holds, total, total-append, total-holds, All-around,
}
use gouterstellar_platform.DurableFile.Locks.Invariant.{
  Points, Inv, around-All, refers_known, Points-kept, point_new, point_gone, kept,
}

module _ (r : DestinationLockRegistry) (xs ys : List Goroutine) where
  at : (g : Goroutine) → Inv r (xs ++ (g ∷ ys)) → Points r.locks g
  at g inv = (All-around (Points r.locks) xs g ys inv.pointing).1

  locks-Inv :
      (key : Bytes) (id : ℕ)
      → (r.objects id).held ≡ false
      → Inv r (xs ++ (waiting key id ∷ ys))
      → Inv (set_held r id true) (xs ++ (holding key id ∷ ys))
  unfolding set_held set_object refers holds
  locks-Inv key id free inv =
      kept r xs ys (waiting key id) (holding key id) _ inv (at (waiting key id) inv)
        (λ i. ground (arith, ==_iff id i)) (λ i. ground (arith, ==_iff id i))
        (λ k i e. ground (arith, inv.used k i e))

  -- The lock of its holder is locked, and the lock that a goroutine leaves counts a reference.
  is_held :
      (key : Bytes) (id : ℕ) → Inv r (xs ++ (holding key id ∷ ys)) → (r.objects id).held ≡ true
  unfolding holds
  is_held key id inv =
      ground (arith, ==_iff id id, inv.owned id, total-append (holds id) xs (holding key id) ys)

  counts :
      (key : Bytes) (id : ℕ)
      → Inv r (xs ++ (unlocked key id ∷ ys))
      → (r.objects id).refs ≡ suc (total (refers id) xs + total (refers id) ys)
  unfolding refers
  counts key id inv =
      ground (arith, ==_iff id id, inv.counted id, total-append (refers id) xs (unlocked key id) ys)

  unlocks-Inv :
      (key : Bytes) (id : ℕ)
      → Inv r (xs ++ (holding key id ∷ ys))
      → Inv (set_held r id false) (xs ++ (unlocked key id ∷ ys))
  unfolding set_held set_object refers holds
  unlocks-Inv key id inv =
      kept r xs ys (holding key id) (unlocked key id) _ inv (at (holding key id) inv)
        (λ i. ground (arith, ==_iff id i)) (λ i. ground (arith, ==_iff id i, is_held key id inv))
        (λ k i e. ground (arith, inv.used k i e))

  enters_known :
      (key : Bytes) (id : ℕ)
      → r.locks key ≡ some id
      → Inv r (xs ++ (idle ∷ ys))
      → Inv (add_ref r id) (xs ++ (waiting key id ∷ ys))
  unfolding add_ref set_object refers holds
  enters_known key id e inv =
      kept r xs ys idle (waiting key id) _ inv e (λ i. ground (arith, ==_iff id i))
        (λ i. ground (arith, ==_iff id i)) (λ k i e. ground (arith, inv.used k i e))

  -- Another key has another lock.
  other_key :
      (gs : List Goroutine) (key k : Bytes) (id j : ℕ)
      → Inv r gs
      → r.locks key ≡ some id
      → r.locks k ≡ some j
      → text_eq key k ≡ false
      → (id == j) ≡ false
  other_key gs key k id j inv e f h = elim (Bool-cases (id == j)) [
    | inl t ↦ absurd (
        ground (
          arith,
          ==_iff id j,
          text_eq_iff key k,
          inv.alone key k id e (f ∙ ap some (sym ((==_iff id j).0 t))),
        ))
    | inr g ↦ g
  ]

  leaves_more :
      (key : Bytes) (id : ℕ)
      → Inv r (xs ++ (unlocked key id ∷ ys))
      → ((r.objects id).refs - 1 == 0) ≡ false
      → Inv (drop_ref r key id) (xs ++ (idle ∷ ys))
  unfolding drop_ref set_object refers holds
  leaves_more key id inv more = rw (more) (
      kept r xs ys (unlocked key id) idle _ inv tt
        (λ i. ground (arith, ==_iff id i, counts key id inv)) (λ i. ground (arith, ==_iff id i))
        (λ k i e. ground (arith, ==_iff id i, inv.used k i e)))

  still_there :
      (key k : Bytes) (i : ℕ)
      → set_lock r.locks key none k ≡ some i
      → (text_eq key k ≡ false) × (r.locks k ≡ some i)
  unfolding set_lock
  still_there key k i e = ground arith

  leaves_last :
      (key : Bytes) (id : ℕ)
      → Inv r (xs ++ (unlocked key id ∷ ys))
      → ((r.objects id).refs - 1 == 0) ≡ true
      → Inv (drop_ref r key id) (xs ++ (idle ∷ ys))
  unfolding drop_ref set_object refers holds
  leaves_last key id inv last = rw (last) (
      let (a, b, c) = All-around (Points r.locks) xs (unlocked key id) ys inv.pointing in
      let gone = counts key id inv in
      record {
        pointing =
            around-All (Points (set_lock r.locks key none)) xs idle ys
              (Points-kept r.locks _ xs
                (λ k j lt e.
                  point_gone r.locks key k id j b e
                    (λ q. ground (arith, gone, ap (λ n. total (refers n) xs) q)))
                a)
              tt
              (Points-kept r.locks _ ys
                (λ k j lt e.
                  point_gone r.locks key k id j b e
                    (λ q. ground (arith, gone, ap (λ n. total (refers n) ys) q)))
                c);
        counted = λ i. ground (
          arith,
          ==_iff id i,
          gone,
          inv.counted i,
          total-append (refers i) xs (unlocked key id) ys,
          total-append (refers i) xs idle ys,
        );
        owned = λ i. ground (
          arith,
          ==_iff id i,
          inv.owned i,
          total-append (holds i) xs (unlocked key id) ys,
          total-append (holds i) xs idle ys,
        );
        known = λ k i e. inv.known k i (still_there key k i e).1;
        alone = λ k j i e f. inv.alone k j i (still_there key k i e).1 (still_there key j i f).1;
        used = λ k i e.
            let (f, e') = still_there key k i e in
            ground (
              arith,
              inv.used k i e',
              other_key (xs ++ (unlocked key id ∷ ys)) key k id i inv b e' f,
            );
      })

  -- What is found in a map where one key was put in.
  found_new :
      (key k : Bytes) (n i : ℕ)
      → set_lock r.locks key (some n) k ≡ some i
      → ((key ≡ k) × (n ≡ i)) ⊎ (r.locks k ≡ some i)
  unfolding set_lock
  found_new key k n i e = elim (Bool-cases (text_eq key k)) [
    | inl t ↦ inl ((text_eq_iff key k).0 t, some-injective _ _ (rw (t) at e))
    | inr f ↦ inr (rw (f) at e)
  ]

  alone_new :
      {gs : List Goroutine} (key k j : Bytes) (i : ℕ)
      → Inv r gs
      → ((key ≡ k) × (r.fresh ≡ i)) ⊎ (r.locks k ≡ some i)
      → ((key ≡ j) × (r.fresh ≡ i)) ⊎ (r.locks j ≡ some i)
      → k ≡ j
  alone_new key k j i inv (inl (p, q)) (inl (p', q')) = sym p ∙ p'
  alone_new key k j i inv (inl (p, q)) (inr g) = absurd (omega (arith, inv.known j i g))
  alone_new key k j i inv (inr f) (inl (p, q)) = absurd (omega (arith, inv.known k i f))
  alone_new key k j i inv (inr f) (inr g) = inv.alone k j i f g

  set_lock_same : (m : Bytes → Option ℕ) (key : Bytes) (o : Option ℕ) → set_lock m key o key ≡ o
  unfolding set_lock
  set_lock_same m key o = ground (arith, text_eq_refl key)

  enters_new :
      (key : Bytes)
      → r.locks key ≡ none
      → Inv r (xs ++ (idle ∷ ys))
      → Inv
          (add_ref
            (record {
              locks = set_lock r.locks key (some r.fresh);
              objects = set_object r.objects r.fresh new_lock;
              fresh = suc r.fresh;
            })
            r.fresh)
          (xs ++ (waiting key r.fresh ∷ ys))
  unfolding add_ref set_object refers holds
  enters_new key e inv =
      let (a, b, c) = All-around (Points r.locks) xs idle ys inv.pointing in
      let absent : (i : ℕ) → r.fresh ≤ i → total (refers i) (xs ++ (idle ∷ ys)) ≡ 0 =
        λ i. refers_known r.locks r.fresh i (xs ++ (idle ∷ ys)) inv.known inv.pointing in
      record {
        pointing =
            around-All (Points (set_lock r.locks key (some r.fresh))) xs (waiting key r.fresh) ys
              (Points-kept r.locks _ xs (λ k j lt. point_new r.locks key k r.fresh j e) a)
              (set_lock_same r.locks key (some r.fresh))
              (Points-kept r.locks _ ys (λ k j lt. point_new r.locks key k r.fresh j e) c);
        counted = λ i. ground (
          arith,
          ==_iff r.fresh i,
          inv.counted i,
          absent i,
          total-append (refers i) xs idle ys,
          total-append (refers i) xs (waiting key r.fresh) ys,
        );
        owned = λ i. ground (
          arith,
          ==_iff r.fresh i,
          inv.owned i,
          absent i,
          total-holds i (xs ++ (idle ∷ ys)),
          total-append (holds i) xs idle ys,
          total-append (holds i) xs (waiting key r.fresh) ys,
        );
        known = λ k i f. elim (found_new key k r.fresh i f) [
          | inl (p, q) ↦ omega arith
          | inr g ↦ omega (arith, inv.known k i g)
        ];
        alone = λ k j i f g.
            alone_new key k j i inv (found_new key k r.fresh i f) (found_new key j r.fresh i g);
        used = λ k i f. elim (found_new key k r.fresh i f) [
          | inl (p, q) ↦ ground (arith, ==_iff r.fresh i)
          | inr g ↦ ground (arith, ==_iff r.fresh i, inv.known k i g, inv.used k i g)
        ];
      }

  find_known : (key : Bytes) (id : ℕ) → r.locks key ≡ some id → find_or_create r key ≡ (id, r)
  unfolding find_or_create
  find_known key id e = rw (e, find_or_create) refl

  created : Bytes → DestinationLockRegistry
  created key = record {
    locks = set_lock r.locks key (some r.fresh);
    objects = set_object r.objects r.fresh new_lock;
    fresh = suc r.fresh;
  }

  find_new : (key : Bytes) → r.locks key ≡ none → find_or_create r key ≡ (r.fresh, created key)
  unfolding find_or_create created
  find_new key e = rw (e, find_or_create) refl

  -- The invariant behind the first section, by what the lookup gives.
  entered :
      (key : Bytes) (p : ℕ × DestinationLockRegistry)
      → find_or_create r key ≡ p
      → Inv (add_ref p.1 p.0) (xs ++ (waiting key p.0 ∷ ys))
      → Inv (acquire r key).1 (xs ++ (waiting key (acquire r key).0 ∷ ys))
  unfolding acquire
  entered key p e inv =
      subst (λ q. Inv (add_ref q.1 q.0) (xs ++ (waiting key q.0 ∷ ys))) (sym e) inv

  enters-Inv :
      (key : Bytes)
      → Inv r (xs ++ (idle ∷ ys))
      → Inv (acquire r key).1 (xs ++ (waiting key (acquire r key).0 ∷ ys))
  unfolding created
  enters-Inv key inv = elim (Option-cases (r.locks key)) [
    | inl e ↦ entered key (r.fresh, created key) (find_new key e) (enters_new key e inv)
    | inr (id, e) ↦ entered key (id, r) (find_known key id e) (enters_known key id e inv)
  ]

  leaves-Inv :
      (key : Bytes) (id : ℕ)
      → Inv r (xs ++ (unlocked key id ∷ ys))
      → Inv (drop_ref r key id) (xs ++ (idle ∷ ys))
  leaves-Inv key id inv = elim (Bool-cases ((r.objects id).refs - 1 == 0)) [
    | inl t ↦ leaves_last key id inv t
    | inr f ↦ leaves_more key id inv f
  ]

  pub Move-Inv :
      {r' : DestinationLockRegistry} {g g' : Goroutine}
      → Move r g r' g'
      → Inv r (xs ++ (g ∷ ys))
      → Inv r' (xs ++ (g' ∷ ys))
  Move-Inv (enters key) inv = enters-Inv key inv
  Move-Inv (locks key id free) inv = locks-Inv key id free inv
  Move-Inv (unlocks key id) inv = unlocks-Inv key id inv
  Move-Inv (leaves key id) inv = leaves-Inv key id inv
