-- ===== src/Ui/Links.antt =====
-- `validateSameOriginPath` of ui/shell.go. The result of `url.Parse` is a parameter.
use gouterstellar_platform.Base.{
  ◌==◌, if◌then◌else◌, Result, ok, fail_if, All, ◌≡◌, ◌≢◌, Bool, true, false, not, ◌&&◌, ◌||◌,
  Option, none, some, [], ◌∷◌,
}
use gouterstellar_platform.Text.{Bytes, is_empty}

-- What the code reads of a parsed URL.
pub record Url : Type 0 where
  pub is_abs : Bool
  pub host : Bytes
  pub has_user : Bool
  pub opaque : Bytes
  pub path : Bytes

-- `strings.HasPrefix(s, "/")` and `strings.HasPrefix(s, "//")`.
abbrev pub starts_slash : Bytes → Bool
starts_slash [] = false
starts_slash (c ∷ s) = c == b'/'

abbrev pub starts_two_slashes : Bytes → Bool
starts_two_slashes [] = false
starts_two_slashes (c ∷ s) = c == b'/' && starts_slash s

-- `strings.Contains(s, `\`)`.
unfoldable pub has_backslash : Bytes → Bool
has_backslash [] = false
has_backslash (c ∷ s) = c == b'\\' || has_backslash s

unfoldable pub is_foreign : Option Url → Bool
is_foreign none = true
is_foreign (some u) =
    u.is_abs
    || not (is_empty u.host)
    || u.has_user
    || not (is_empty u.opaque)
    || not (starts_slash u.path)
    || starts_two_slashes u.path
    || has_backslash u.path

-- The errors of the shell. `link_required` names what the URL is of.
pub data LinkKind : Type 0 where
  brand stylesheet favicon avatar profile logout navigation_group navigation : LinkKind

pub data ShellError : Type 0 where
  title_required product_name_required negative_refresh unknown_layout : ShellError
  logout_field_required label_required : ShellError
  not_same_origin : LinkKind → ShellError
  item_not_same_origin : Bytes → ShellError

unfoldable pub validate_same_origin_path :
    (Bytes → Option Url) → LinkKind → Bytes → Bool → Result ShellError (Unit {0})
validate_same_origin_path parse kind value allow_empty =
    if allow_empty && is_empty value
    then ok tt
    else fail_if (is_foreign (parse value)) (not_same_origin kind)

-- A path on the page's own origin: one slash, then no second one, and no backslash, which browsers
-- read as a slash.
pub record IsSameOrigin (u : Url) : Type 0 where
  pub relative : u.is_abs ≡ false
  pub no_host : u.host ≡ []
  pub no_user : u.has_user ≡ false
  pub no_opaque : u.opaque ≡ []
  pub rest : Bytes
  pub absolute_path : u.path ≡ b'/' ∷ rest
  pub one_slash : (s : Bytes) → rest ≢ b'/' ∷ s
  pub plain : All (λ c. c ≢ b'\\') u.path

abbrev pub IsLink : (Bytes → Option Url) → Bytes → Type 0
IsLink parse value = (u : Url) × (parse value ≡ some u) × IsSameOrigin u
