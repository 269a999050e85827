-- ===== src/Ui/Validation.antt =====
-- Which shells `Validate` accepts.
use gouterstellar_platform.Base.{
  Bool-cases, ok, All, seq_ok, fail_if_ok, ◌≡◌, refl, ◌≢◌, ◌↔◌, ◌⊎◌, inl, inr, false, not, ◌&&◌,
  Option, none, some, List, [], ◌∷◌, arith,
}
use gouterstellar_platform.Base.Int.{ℤ, pos, ltb_ℤ, ◌≤ℤ◌}
use gouterstellar_platform.Text.{Bytes, text_eq, text_eq_iff}
use gouterstellar_platform.Text.Trim.{trim_space}
use gouterstellar_platform.Ui.Links.{
  Url, IsLink, stylesheet, avatar, profile, logout, brand, favicon,
}
use gouterstellar_platform.Ui.Origins.{required_iff, optional_iff}
use gouterstellar_platform.Ui.Entries.{
  IsGroup, groups_sound, groups_complete, is_empty-false, is_empty_of_ne,
}
use gouterstellar_platform.Ui.Page.{
  Shell, User, HiddenField, Layout, layout_sidebar, layout_topbar, validate_fields,
  validate_stylesheets, validate_user, validate,
}

abbrev pub IsOptionalLink : (Bytes → Option Url) → Bytes → Type 0
IsOptionalLink parse value = (value ≡ []) ⊎ IsLink parse value

abbrev pub IsNamed : HiddenField → Type 0
IsNamed f = trim_space f.name ≢ []

pub record IsUser (parse : Bytes → Option Url) (u : User) : Type 0 where
  pub avatar : IsOptionalLink parse u.avatar_url
  pub profile : IsLink parse u.profile_url
  pub logout : IsLink parse u.logout_url
  pub fields : All IsNamed u.logout_fields

abbrev pub IsVisitor : (Bytes → Option Url) → Option User → Type 0
IsVisitor parse none = Unit
IsVisitor parse (some u) = IsUser parse u

-- A shell that is in order.
pub record IsShell (parse : Bytes → Option Url) (s : Shell) : Type 0 where
  pub titled : trim_space s.title ≢ []
  pub product : trim_space s.product_name ≢ []
  pub refresh : pos 0 ≤ℤ s.auto_refresh_seconds
  pub known_layout : (s.layout ≡ layout_sidebar) ⊎ (s.layout ≡ layout_topbar)
  pub brand_link : IsOptionalLink parse s.brand_url
  pub styles : All (IsLink parse) s.stylesheets
  pub icon : IsOptionalLink parse s.favicon
  pub visitor : IsVisitor parse s.user
  pub groups : All (IsGroup parse) s.navigation

fields_sound : (fs : List HiddenField) → validate_fields fs ≡ ok tt → All IsNamed fs
unfolding validate_fields
fields_sound [] h = tt
fields_sound (f ∷ fs) h =
    let (a, b) = seq_ok _ _ h in (is_empty-false _ (fail_if_ok _ _ a), fields_sound fs b)

fields_complete : (fs : List HiddenField) → All IsNamed fs → validate_fields fs ≡ ok tt
unfolding validate_fields
fields_complete [] h = refl
fields_complete (f ∷ fs) (a, b) = rw (is_empty_of_ne _ a) (fields_complete fs b)

refresh_sound : (z : ℤ) → ltb_ℤ z (pos 0) ≡ false → pos 0 ≤ℤ z
refresh_sound z h = ground arith

layout_sound :
    (l : Layout)
    → (not (text_eq l layout_sidebar) && not (text_eq l layout_topbar)) ≡ false
    → (l ≡ layout_sidebar) ⊎ (l ≡ layout_topbar)
layout_sound l h = elim (Bool-cases (text_eq l layout_sidebar)) [
  | inl e ↦ inl ((text_eq_iff l layout_sidebar).0 e)
  | inr n ↦ inr ((text_eq_iff l layout_topbar).0 (ground arith))
]

layout_complete :
    (l : Layout)
    → (l ≡ layout_sidebar) ⊎ (l ≡ layout_topbar)
    → (not (text_eq l layout_sidebar) && not (text_eq l layout_topbar)) ≡ false
layout_complete l (inl e) = ground (arith, (text_eq_iff l layout_sidebar).1 e)
layout_complete l (inr e) = ground (arith, (text_eq_iff l layout_topbar).1 e)

module _ (parse : Bytes → Option Url) where
  styles_sound : (ss : List Bytes) → validate_stylesheets parse ss ≡ ok tt → All (IsLink parse) ss
  unfolding validate_stylesheets
  styles_sound [] h = tt
  styles_sound (s ∷ ss) h =
      let (a, b) = seq_ok _ _ h in ((required_iff parse stylesheet s).0 a, styles_sound ss b)

  styles_complete :
      (ss : List Bytes) → All (IsLink parse) ss → validate_stylesheets parse ss ≡ ok tt
  unfolding validate_stylesheets
  styles_complete [] h = refl
  styles_complete (s ∷ ss) (a, b) =
      rw ((required_iff parse stylesheet s).1 a) (styles_complete ss b)

  user_sound : (u : Option User) → validate_user parse u ≡ ok tt → IsVisitor parse u
  unfolding validate_user
  user_sound none h = tt
  user_sound (some u) h =
      let (a, h₁) = seq_ok _ _ h in
      let (b, h₂) = seq_ok _ _ h₁ in
      let (c, d) = seq_ok _ _ h₂ in
      record {
        avatar = (optional_iff parse avatar u.avatar_url).0 a;
        profile = (required_iff parse profile u.profile_url).0 b;
        logout = (required_iff parse logout u.logout_url).0 c;
        fields = fields_sound u.logout_fields d;
      }

  user_complete : (u : Option User) → IsVisitor parse u → validate_user parse u ≡ ok tt
  unfolding validate_user
  user_complete none h = refl
  user_complete (some u) v =
      rw
        (
          (optional_iff parse avatar u.avatar_url).1 v.avatar,
          (required_iff parse profile u.profile_url).1 v.profile,
          (required_iff parse logout u.logout_url).1 v.logout,
        )
        (fields_complete u.logout_fields v.fields)

  shell_sound : (s : Shell) → validate parse s ≡ ok tt → IsShell parse s
  unfolding validate
  shell_sound s h =
      let (a, h₁) = seq_ok _ _ h in
      let (b, h₂) = seq_ok _ _ h₁ in
      let (c, h₃) = seq_ok _ _ h₂ in
      let (d, h₄) = seq_ok _ _ h₃ in
      let (e, h₅) = seq_ok _ _ h₄ in
      let (f, h₆) = seq_ok _ _ h₅ in
      let (g, h₇) = seq_ok _ _ h₆ in
      let (i, j) = seq_ok _ _ h₇ in
      record {
        titled = is_empty-false _ (fail_if_ok _ _ a);
        product = is_empty-false _ (fail_if_ok _ _ b);
        refresh = refresh_sound _ (fail_if_ok _ _ c);
        known_layout = layout_sound s.layout (fail_if_ok _ _ d);
        brand_link = (optional_iff parse brand s.brand_url).0 e;
        styles = styles_sound s.stylesheets f;
        icon = (optional_iff parse favicon s.favicon).0 g;
        visitor = user_sound s.user i;
        groups = groups_sound parse s.navigation j;
      }

  shell_complete : (s : Shell) → IsShell parse s → validate parse s ≡ ok tt
  unfolding validate
  shell_complete s v =
      let refresh : ltb_ℤ s.auto_refresh_seconds (pos 0) ≡ false = ground (arith, v.refresh) in
      rw
        (
          is_empty_of_ne _ v.titled,
          is_empty_of_ne _ v.product,
          refresh,
          layout_complete s.layout v.known_layout,
          (optional_iff parse brand s.brand_url).1 v.brand_link,
          styles_complete s.stylesheets v.styles,
          (optional_iff parse favicon s.favicon).1 v.icon,
          user_complete s.user v.visitor,
        )
        (groups_complete parse s.navigation v.groups)

  -- `Validate` accepts a shell exactly when its title and product name are not blank, its refresh
  -- interval is not negative, its layout is known, its user's logout fields have names, every entry of
  -- its navigation at whatever depth has a label that is not blank, and every link that it checks is a
  -- path on the page's own origin: those of the stylesheets, the profile, the logout and the entries,
  -- and, unless they are empty, those of the brand, the favicon, the avatar and the groups.
  pub validate_iff : (s : Shell) → (validate parse s ≡ ok tt) ↔ IsShell parse s
  validate_iff s = (shell_sound s, shell_complete s)
