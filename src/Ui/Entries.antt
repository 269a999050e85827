-- ===== src/Ui/Entries.antt =====
-- Which navigations `Validate` accepts.
use gouterstellar_platform.Base.{
  ok, All, All-append, All-parts, seq_ok, fail_if_ok, map_err_ok, ◌≡◌, refl, ◌≢◌, ◌⊎◌, false,
  Option, List, [], ◌∷◌,
}
use gouterstellar_platform.Text.{Bytes, is_empty}
use gouterstellar_platform.Text.Trim.{trim_space}
use gouterstellar_platform.Ui.Links.{Url, IsLink, navigation_group, navigation}
use gouterstellar_platform.Ui.Origins.{required_iff, optional_iff}
use gouterstellar_platform.Ui.Navigation.{
  ItemInfo, NavigationItem, item, NavigationItems, none_left, next_item, NavigationGroup,
  validate_info, validate_item, validate_items, validate_groups, entries, all_entries,
}

pub is_empty-false : (s : Bytes) → is_empty s ≡ false → s ≢ []
is_empty-false [] h e = cc h
is_empty-false (c ∷ s) h e = cc e

pub is_empty_of_ne : (s : Bytes) → s ≢ [] → is_empty s ≡ false
is_empty_of_ne [] h = absurd (h refl)
is_empty_of_ne (c ∷ s) h = refl

-- A label that is not blank, and a link on the page's own origin.
abbrev pub IsEntry : (Bytes → Option Url) → ItemInfo → Type 0
IsEntry parse info = (trim_space info.label ≢ []) × IsLink parse info.url

abbrev pub IsGroup : (Bytes → Option Url) → NavigationGroup → Type 0
IsGroup parse g = ((g.url ≡ []) ⊎ IsLink parse g.url) × All (IsEntry parse) (all_entries g.items)

module _ (parse : Bytes → Option Url) where
  info_sound : (info : ItemInfo) → validate_info parse info ≡ ok tt → IsEntry parse info
  unfolding validate_info
  info_sound info h =
      let (a, b) = seq_ok _ _ h in
      (
        is_empty-false _ (fail_if_ok _ _ a),
        (required_iff parse navigation info.url).0 (map_err_ok _ _ b),
      )

  info_complete : (info : ItemInfo) → IsEntry parse info → validate_info parse info ≡ ok tt
  unfolding validate_info
  info_complete info (a, b) =
      rw (is_empty_of_ne _ a, (required_iff parse navigation info.url).1 b) refl

mutual
  unfolding validate_item entries

  item_sound :
      (parse : Bytes → Option Url) (i : NavigationItem)
      → validate_item parse i ≡ ok tt
      → All (IsEntry parse) (entries i)
  item_sound parse (item info children) h =
      let (a, b) = seq_ok _ _ h in (info_sound parse info a, items_sound parse children b)

  items_sound :
      (parse : Bytes → Option Url) (is : NavigationItems)
      → validate_items parse is ≡ ok tt
      → All (IsEntry parse) (all_entries is)
  items_sound parse none_left h = tt
  items_sound parse (next_item i is) h =
      let (a, b) = seq_ok _ _ h in
      All-append (IsEntry parse) (entries i) (all_entries is) (item_sound parse i a)
        (items_sound parse is b)

mutual
  unfolding validate_item entries

  item_complete :
      (parse : Bytes → Option Url) (i : NavigationItem)
      → All (IsEntry parse) (entries i)
      → validate_item parse i ≡ ok tt
  item_complete parse (item info children) h =
      rw (info_complete parse info h.0) (items_complete parse children h.1)

  items_complete :
      (parse : Bytes → Option Url) (is : NavigationItems)
      → All (IsEntry parse) (all_entries is)
      → validate_items parse is ≡ ok tt
  items_complete parse none_left h = refl
  items_complete parse (next_item i is) h =
      let (a, b) = All-parts (IsEntry parse) (entries i) (all_entries is) h in
      rw (item_complete parse i a) (items_complete parse is b)

module _ (parse : Bytes → Option Url) where
  pub groups_sound :
      (gs : List NavigationGroup) → validate_groups parse gs ≡ ok tt → All (IsGroup parse) gs
  unfolding validate_groups
  groups_sound [] h = tt
  groups_sound (g ∷ gs) h =
      let (a, r) = seq_ok _ _ h in
      let (b, c) = seq_ok _ _ r in
      (
        ((optional_iff parse navigation_group g.url).0 a, items_sound parse g.items b),
        groups_sound gs c,
      )

  pub groups_complete :
      (gs : List NavigationGroup) → All (IsGroup parse) gs → validate_groups parse gs ≡ ok tt
  unfolding validate_groups
  groups_complete [] h = refl
  groups_complete (g ∷ gs) ((a, b), c) =
      rw ((optional_iff parse navigation_group g.url).1 a, items_complete parse g.items b)
        (groups_complete gs c)
