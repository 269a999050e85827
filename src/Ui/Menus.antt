-- ===== src/Ui/Menus.antt =====
-- What the navigation's loops find: the active section, and the entries that are in order.
use gouterstellar_platform.Base.{
  Bool-cases, length, All, ℕ, suc, ◌+◌, ◌≡◌, refl, ap, ◌⊎◌, inl, inr, Bool, true, false, ◌||◌,
  Option, none, some, List, [], ◌∷◌, ◌++◌, arith,
}
use gouterstellar_platform.Ui.Navigation.{
  ItemInfo, NavigationItem, item, NavigationItems, none_left, next_item, NavigationGroup,
  has_active, any_active, group_active, section_from, entries, all_entries,
}

-- Some entry of a list is the current page.
abbrev pub HasActive : List ItemInfo → Type 0
HasActive infos =
    (before : List ItemInfo) × (info : ItemInfo) × (after : List ItemInfo) × (infos
      ≡ before ++ (info ∷ after))
    × (info.active ≡ true)

unfoldable pub exists_active : List ItemInfo → Bool
exists_active [] = false
exists_active (i ∷ is) = i.active || exists_active is

exists_active-append :
    (xs ys : List ItemInfo) → exists_active (xs ++ ys) ≡ (exists_active xs || exists_active ys)
unfolding exists_active
exists_active-append [] ys = refl
exists_active-append (x ∷ xs) ys = ground (arith, exists_active-append xs ys)

exists_active_sound : (is : List ItemInfo) → exists_active is ≡ true → HasActive is
unfolding exists_active
exists_active_sound [] h = cc h
exists_active_sound (i ∷ is) h = elim (Bool-cases i.active) [
  | inl a ↦ ([], i, is, refl, a)
  | inr n ↦
      let (xs, j, ys, e, a) = exists_active_sound is (ground arith) in
      (i ∷ xs, j, ys, ap (λ l. i ∷ l) e, a)
]

exists_active_complete :
    (xs : List ItemInfo) (i : ItemInfo) (ys : List ItemInfo)
    → i.active ≡ true
    → exists_active (xs ++ (i ∷ ys)) ≡ true
unfolding exists_active
exists_active_complete [] i ys a = ground arith
exists_active_complete (x ∷ xs) i ys a = ground (arith, exists_active_complete xs i ys a)

mutual
  unfolding has_active entries exists_active

  has_active-eq : (i : NavigationItem) → has_active i ≡ exists_active (entries i)
  has_active-eq (item info children) = ground (arith, any_active-eq children)

  any_active-eq : (is : NavigationItems) → any_active is ≡ exists_active (all_entries is)
  any_active-eq none_left = refl
  any_active-eq (next_item i is) =
      ground (
        arith,
        has_active-eq i,
        any_active-eq is,
        exists_active-append (entries i) (all_entries is),
      )

-- A group is the reader's section when it says so itself, or when one of its items at whatever depth
-- is the current page.
abbrev pub IsReaders : NavigationGroup → Type 0
IsReaders g = (g.current ≡ true) ⊎ HasActive (all_entries g.items)

group_active_sound : (g : NavigationGroup) → group_active g ≡ true → IsReaders g
unfolding group_active
group_active_sound g h = elim (Bool-cases g.current) [
  | inl c ↦ inl c
  | inr n ↦ inr (exists_active_sound (all_entries g.items) (ground (arith, any_active-eq g.items)))
]

group_active_complete : (g : NavigationGroup) → IsReaders g → group_active g ≡ true
unfolding group_active
group_active_complete g (inl c) = ground arith
group_active_complete g (inr (xs, i, ys, e, a)) =
    ground (arith, any_active-eq g.items, ap exists_active e, exists_active_complete xs i ys a)

not_active : (g : NavigationGroup) → group_active g ≡ false → ¬ IsReaders g
not_active g n r = cc (group_active_complete g r, n)

-- What it means that an answer is the section of the groups, counted from `n`.
abbrev pub IsSection : ℕ → List NavigationGroup → Option (ℕ × NavigationGroup) → Type 0
IsSection n gs none = All (λ g. ¬ IsReaders g) gs
IsSection n gs (some (m, g)) =
    (before : List NavigationGroup) × (after : List NavigationGroup) × (gs ≡ before ++ (g ∷ after))
    × (m ≡ n + length before)
    × IsReaders g
    × All (λ g. ¬ IsReaders g) before

IsSection-later :
    (n : ℕ) (g : NavigationGroup) (gs : List NavigationGroup) (o : Option (ℕ × NavigationGroup))
    → ¬ IsReaders g
    → IsSection (suc n) gs o
    → IsSection n (g ∷ gs) o
IsSection-later n g gs none not_g s = (not_g, s)
IsSection-later n g gs (some (m, h)) not_g (before, after, e, k, r, a) =
    (g ∷ before, after, ap (λ l. g ∷ l) e, omega arith, r, (not_g, a))

-- The section is the first of the groups that are the reader's, and there is none only if no group
-- is: a group is the reader's when it is marked so or holds the current page at whatever depth.
pub section_from-IsSection :
    (n : ℕ) (gs : List NavigationGroup) → IsSection n gs (section_from n gs)
unfolding section_from
section_from-IsSection n [] = tt
section_from-IsSection n (g ∷ gs) = elim (Bool-cases (group_active g)) [
  | inl a ↦ rw (a, section_from) ([], gs, refl, omega arith, group_active_sound g a, tt)
  | inr f ↦
      rw (f, section_from)
        (IsSection-later n g gs (section_from (suc n) gs) (not_active g f)
          (section_from-IsSection (suc n) gs))
]
