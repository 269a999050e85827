-- ===== src/Ui/Navigation.antt =====
-- The navigation of ui/shell.go: groups of items, which nest.
use gouterstellar_platform.Base.{
  if◌then◌else◌, Result, ok, ◌>>◌, fail_if, map_err, ℕ, suc, Bool, true, false, ◌||◌, Option, none,
  some, List, [], ◌∷◌, ◌++◌,
}
use gouterstellar_platform.Text.{Bytes, is_empty}
use gouterstellar_platform.Text.Trim.{trim_space}
use gouterstellar_platform.Ui.Links.{
  Url, ShellError, label_required, item_not_same_origin, navigation_group, navigation,
  validate_same_origin_path,
}

-- The fields of a `NavigationItem` but for its children.
pub record ItemInfo : Type 0 where
  pub label : Bytes
  pub url : Bytes
  pub description : Bytes
  pub class : Bytes
  pub code : Bytes
  pub count : Bytes
  pub count_aria_label : Bytes
  pub active : Bool

mutual
  pub data NavigationItem : Type 0 where
    item : ItemInfo → NavigationItems → NavigationItem

  -- A slice of items.
  pub data NavigationItems : Type 0 where
    none_left : NavigationItems
    next_item : NavigationItem → NavigationItems → NavigationItems

pub record NavigationGroup : Type 0 where
  pub label : Bytes
  pub aria_label : Bytes
  pub collapsible : Bool
  pub count : Bytes
  pub items : NavigationItems
  pub url : Bytes
  pub current : Bool

-- `hasActive`, and its loop over the children.
unfoldable mutual
  pub has_active : NavigationItem → Bool
  has_active (item info children) = info.active || any_active children

  pub any_active : NavigationItems → Bool
  any_active none_left = false
  any_active (next_item i is) = has_active i || any_active is

-- `NavigationGroup.Active`.
unfoldable pub group_active : NavigationGroup → Bool
group_active g = g.current || any_active g.items

-- `Shell.Section`: a pointer to the first active group, here its place and the group.
unfoldable pub section_from : ℕ → List NavigationGroup → Option (ℕ × NavigationGroup)
section_from n [] = none
section_from n (g ∷ gs) =
    let rest = section_from (suc n) gs in if group_active g then some (n, g) else rest

module _ (parse : Bytes → Option Url) where
  -- The tests of `validateNavigationItem` before its loop.
  unfoldable pub validate_info : ItemInfo → Result ShellError (Unit {0})
  validate_info info = do
    fail_if (is_empty (trim_space info.label)) label_required
    map_err (λ e. item_not_same_origin info.label)
        (validate_same_origin_path parse navigation info.url false)

-- `validateNavigationItem`, and its loop over the children.
unfoldable mutual
  pub validate_item : (Bytes → Option Url) → NavigationItem → Result ShellError (Unit {0})
  validate_item parse (item info children) =
      validate_info parse info >> validate_items parse children

  pub validate_items : (Bytes → Option Url) → NavigationItems → Result ShellError (Unit {0})
  validate_items parse none_left = ok tt
  validate_items parse (next_item i is) = validate_item parse i >> validate_items parse is

module _ (parse : Bytes → Option Url) where
  -- The loop of `Validate` over the groups.
  unfoldable pub validate_groups : List NavigationGroup → Result ShellError (Unit {0})
  validate_groups [] = ok tt
  validate_groups (g ∷ gs) = do
    validate_same_origin_path parse navigation_group g.url true
    validate_items parse g.items
    validate_groups gs

-- Every item at whatever depth, parents before their children.
unfoldable mutual
  pub entries : NavigationItem → List ItemInfo
  entries (item info children) = info ∷ all_entries children

  pub all_entries : NavigationItems → List ItemInfo
  all_entries none_left = []
  all_entries (next_item i is) = entries i ++ all_entries is
