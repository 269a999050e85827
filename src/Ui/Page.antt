-- ===== src/Ui/Page.antt =====
-- The shell of ui/shell.go and its validation.
use gouterstellar_platform.Base.{
  if◌then◌else◌, Result, ok, ◌>>◌, fail_if, ℕ, Bool, true, false, not, ◌&&◌, Option, none, some,
  List, [], ◌∷◌,
}
use gouterstellar_platform.Base.Int.{ℤ, pos, ltb_ℤ}
use gouterstellar_platform.Text.{Bytes, codes, is_empty, text_eq}
use gouterstellar_platform.Text.Trim.{trim_space}
use gouterstellar_platform.Ui.Links.{
  Url, ShellError, title_required, product_name_required, negative_refresh, unknown_layout,
  logout_field_required, brand, stylesheet, favicon, avatar, profile, logout,
  validate_same_origin_path,
}
use gouterstellar_platform.Ui.Navigation.{NavigationGroup, section_from, validate_groups}

-- `Layout` is a string type with two known values.
abbrev pub Layout : Type 0
Layout = Bytes

abbrev pub layout_sidebar : Layout
layout_sidebar = []

abbrev pub layout_topbar : Layout
layout_topbar = codes "topbar"

pub record ShellLabels : Type 0 where
  pub skip_to_content : Bytes
  pub primary_navigation : Bytes
  pub sign_out : Bytes

pub record Status : Type 0 where
  pub label : Bytes
  pub title : Bytes
  pub detail : Bytes
  pub online : Bool

pub record HiddenField : Type 0 where
  pub name : Bytes
  pub value : Bytes

pub record User : Type 0 where
  pub display_name : Bytes
  pub role_label : Bytes
  pub initial : Bytes
  pub avatar_url : Bytes
  pub profile_url : Bytes
  pub logout_url : Bytes
  pub logout_fields : List HiddenField
  pub active : Bool

pub record Header : Type 0 where
  pub context : Bytes
  pub title : Bytes
  pub status : Bytes

pub record FooterLink : Type 0 where
  pub label : Bytes
  pub url : Bytes
  pub external : Bool

pub record Footer : Type 0 where
  pub primary : Bytes
  pub secondary : Bytes
  pub links : List FooterLink

-- `none` is a nil pointer.
pub record Shell : Type 0 where
  pub language : Bytes
  pub title : Bytes
  pub product_name : Bytes
  pub product_subtitle : Bytes
  pub brand_url : Bytes
  pub body_class : Bytes
  pub stylesheets : List Bytes
  pub favicon : Bytes
  pub auto_refresh_seconds : ℤ
  pub status : Option Status
  pub navigation : List NavigationGroup
  pub user : Option User
  pub labels : ShellLabels
  pub header : Header
  pub footer : Footer
  pub alpha : Bool
  pub layout : Layout

unfoldable pub topbar : Shell → Bool
topbar s = text_eq s.layout layout_topbar

unfoldable pub section : Shell → Option (ℕ × NavigationGroup)
section s = section_from 0 s.navigation

-- `if s == "" { s = d }`.
abbrev pub or_text : Bytes → Bytes → Bytes
or_text s d = if is_empty s then d else s

unfoldable pub with_defaults : ShellLabels → ShellLabels
with_defaults l = record {
  skip_to_content = or_text l.skip_to_content (codes "Skip to content");
  primary_navigation = or_text l.primary_navigation (codes "Primary navigation");
  sign_out = or_text l.sign_out (codes "Sign out");
}

-- The loop of `Validate` over the fields of the logout form.
unfoldable pub validate_fields : List HiddenField → Result ShellError (Unit {0})
validate_fields [] = ok tt
validate_fields (f ∷ fs) =
    fail_if (is_empty (trim_space f.name)) logout_field_required >> validate_fields fs

module _ (parse : Bytes → Option Url) where
  -- Its loop over the stylesheets.
  unfoldable pub validate_stylesheets : List Bytes → Result ShellError (Unit {0})
  validate_stylesheets [] = ok tt
  validate_stylesheets (s ∷ ss) =
      validate_same_origin_path parse stylesheet s false >> validate_stylesheets ss

  unfoldable pub validate_user : Option User → Result ShellError (Unit {0})
  validate_user none = ok tt
  validate_user (some u) = do
    validate_same_origin_path parse avatar u.avatar_url true
    validate_same_origin_path parse profile u.profile_url false
    validate_same_origin_path parse logout u.logout_url false
    validate_fields u.logout_fields

  unfoldable pub validate : Shell → Result ShellError (Unit {0})
  validate s = do
    fail_if (is_empty (trim_space s.title)) title_required
    fail_if (is_empty (trim_space s.product_name)) product_name_required
    fail_if (ltb_ℤ s.auto_refresh_seconds (pos 0)) negative_refresh
    fail_if (not (text_eq s.layout layout_sidebar) && not (text_eq s.layout layout_topbar))
        unknown_layout
    validate_same_origin_path parse brand s.brand_url true
    validate_stylesheets s.stylesheets
    validate_same_origin_path parse favicon s.favicon true
    validate_user s.user
    validate_groups parse s.navigation
