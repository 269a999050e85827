-- ===== src/Ui/Tests.antt =====
-- A page with one menu, and a library of one template.
use gouterstellar_platform.Base.{
  ok, err, forward, ℕ, ◌≡◌, refl, ◌↔◌, ◌⊎◌, Bool, true, false, Option, none, some, List, [], ◌∷◌,
}
use gouterstellar_platform.Base.Int.{pos}
use gouterstellar_platform.Text.{Bytes, codes, text_eq, contains}
use gouterstellar_platform.Text.Prefix.{has_prefix}
use gouterstellar_platform.Text.Trim.{trim_space}
use gouterstellar_platform.Ui.{
  from_template, execute_failed, invalid_shell, page, ShellLabels, Url, ShellError, is_foreign,
  has_backslash, validate_same_origin_path, ItemInfo, NavigationItem, item, none_left, next_item,
  NavigationGroup, has_active, group_active, section_from, section, validate_info, validate_item,
  validate_groups, Shell, User, validate, validate_user, validate_fields, validate_stylesheets,
  not_same_origin, logout, layout_topbar, value, TemplateLibrary, Options, Renderer, RendererError,
  own_templates, new_renderer, render, execute_template, reserved_name, unknown_template,
}
use gouterstellar_platform.Ui.Menus.{IsSection, section_from-IsSection}
use gouterstellar_platform.Ui.Validation.{IsShell, validate_iff}
use gouterstellar_platform.Ui.Rendering.{IsOwn, IsLabelled, execute_template-IsOwn, render_lem}

-- A parser that finds nothing but a path.
abbrev parse : Bytes → Option Url
parse s = some (record { is_abs = false; host = []; has_user = false; opaque = []; path = s })

abbrev info : Bytes → Bytes → Bool → ItemInfo
info label url active = record {
  label = label;
  url = url;
  description = [];
  class = [];
  code = [];
  count = [];
  count_aria_label = [];
  active = active;
}

abbrev leaf : Bool → NavigationItem
leaf active = item (info (codes "List") (codes "/list") active) none_left

abbrev menu : Bool → NavigationGroup
menu active = record {
  label = codes "Menu";
  aria_label = [];
  collapsible = false;
  count = [];
  items =
      next_item (item (info (codes "Home") (codes "/") false) (next_item (leaf active) none_left))
        none_left;
  url = [];
  current = false;
}

abbrev user : Bytes → User
user logout_url = record {
  display_name = codes "U";
  role_label = [];
  initial = codes "U";
  avatar_url = [];
  profile_url = codes "/me";
  logout_url = logout_url;
  logout_fields = record { name = codes "csrf"; value = codes "v" } ∷ [];
  active = false;
}

abbrev shell : Bytes → Shell
shell logout_url = record {
  language = codes "en";
  title = codes "T";
  product_name = codes "P";
  product_subtitle = [];
  brand_url = [];
  body_class = [];
  stylesheets = codes "/a.css" ∷ [];
  favicon = [];
  auto_refresh_seconds = pos 0;
  status = none;
  navigation = menu false ∷ menu true ∷ [];
  user = some (user logout_url);
  labels = record { skip_to_content = []; primary_navigation = codes "Nav"; sign_out = [] };
  header = record { context = []; title = []; status = [] };
  footer = record { primary = []; secondary = []; links = [] };
  alpha = false;
  layout = layout_topbar;
}

accepted : validate parse (shell (codes "/out")) ≡ ok tt
unfolding validate validate_user validate_fields validate_stylesheets validate_groups validate_item
    validate_info validate_same_origin_path is_foreign has_backslash text_eq trim_space
accepted = refl

-- Browsers read "//host" as another origin.
refused : validate parse (shell (codes "//evil")) ≡ err (not_same_origin logout)
unfolding validate validate_user validate_fields validate_stylesheets validate_groups validate_item
    validate_info validate_same_origin_path is_foreign has_backslash text_eq trim_space
refused = refl

validate_iff_example :
    (validate parse (shell (codes "/out")) ≡ ok tt) ↔ IsShell parse (shell (codes "/out"))
validate_iff_example = validate_iff parse (shell (codes "/out"))

nested : section (shell (codes "/out")) ≡ some (1, menu true)
unfolding section section_from group_active has_active
nested = refl

section_from-IsSection_example :
    IsSection 0 (menu false ∷ menu true ∷ []) (section_from 0 (menu false ∷ menu true ∷ []))
section_from-IsSection_example = section_from-IsSection 0 (menu false ∷ menu true ∷ [])

-- A set of templates is the list of their names; each writes its own name.
abbrev library :
    TemplateLibrary (List (Bytes × Bool)) (Unit {0}) (List (Bytes × Bool)) (List Bytes) ℕ ℕ
library = record {
  parse_application = λ g f ps. ok f;
  has_template = λ t name. true;
  templates = λ t. t;
  parse_shell = λ t. ok ((codes "shared-shell", true) ∷ t);
  execute_template = λ t w name d. (ok tt, name ∷ w);
}

abbrev options : Options (List (Bytes × Bool)) (Unit {0})
options = record {
  files = some ((codes "application-content", true) ∷ []);
  patterns = codes "*.html" ∷ [];
  functions = tt;
}

abbrev renderer : Renderer (List (Bytes × Bool))
renderer = record {
  templates = (codes "shared-shell", true) ∷ (codes "application-content", true) ∷ [];
  application_templates = codes "application-content" ∷ [];
}

made : new_renderer library options ≡ ok renderer
unfolding new_renderer own_templates has_prefix
made = refl

reserved :
    new_renderer library (record options { files = some ((codes "shared-x", true) ∷ []) })
    ≡ err (reserved_name (codes "shared-x"))
unfolding new_renderer own_templates has_prefix
reserved = refl

shared :
    execute_template library (some renderer) [] (codes "shared-shell") 0
    ≡ (err (unknown_template (codes "shared-shell")), [])
unfolding execute_template contains text_eq trim_space
shared = refl

execute_template-IsOwn_example :
    let q = execute_template library (some renderer) [] (codes "application-content") 0 in
    ((files : List (Bytes × Bool)) × (parsed : List (Bytes × Bool)) × (options.files ≡ some files)
      × (library.parse_application options.functions files options.patterns ≡ ok parsed)
      × IsOwn (library.templates parsed) (codes "application-content")
      × (q
          ≡ forward from_template (
              library.execute_template renderer.templates []
                (codes "application-content")
                (value 0))))
    ⊎ ((e : RendererError ℕ) × (q ≡ (err e, [])))
execute_template-IsOwn_example =
    execute_template-IsOwn library options renderer [] (codes "application-content") 0 made

render_lem_example :
    let q = render library parse (some renderer) [] (shell (codes "/out")) 0 in
    (IsShell parse (shell (codes "/out"))
      × (labels : ShellLabels) × IsLabelled (shell (codes "/out")).labels labels
      × (q
          ≡ forward execute_failed (
              library.execute_template renderer.templates []
                (codes "shared-shell")
                (page (record (shell (codes "/out")) { labels = labels }) 0))))
    ⊎ ((¬ IsShell parse (shell (codes "/out")))
        × (e : ShellError) × (q ≡ (err (invalid_shell e), [])))
render_lem_example = render_lem library parse renderer [] (shell (codes "/out")) 0
