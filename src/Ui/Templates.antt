-- ===== src/Ui/Templates.antt =====
-- The renderer of ui/renderer.go. The library html/template is an interface.
use gouterstellar_platform.Base.{
  if◌then◌else◌, Result, ok, err, ◌>>=◌, ◌>>◌, fail_if, map_err, forward, Bool, true, false, not,
  Option, none, some, List, [], ◌∷◌,
}
use gouterstellar_platform.Text.{Bytes, codes, is_empty, contains}
use gouterstellar_platform.Text.Prefix.{has_prefix}
use gouterstellar_platform.Text.Trim.{trim_space}
use gouterstellar_platform.Ui.Links.{Url, ShellError}
use gouterstellar_platform.Ui.Page.{Shell, with_defaults, validate}

-- What a template is executed with: any value of the application, or a page.
pub data Payload (D : Type 0) : Type 0 where
  value : D → Payload D
  page : Shell → D → Payload D

-- Template sets `T` over file systems `F` and function maps `G`; an execution writes to a writer `W`,
-- and may do so before it fails. `templates` gives each name with whether the template has a tree.
pub record TemplateLibrary (F G T W D E : Type 0) : Type 0 where
  pub parse_application : G → F → List Bytes → Result E T
  pub has_template : T → Bytes → Bool
  pub templates : T → List (Bytes × Bool)
  pub parse_shell : T → Result E T
  pub execute_template : T → W → Bytes → Payload D → Result E (Unit {0}) × W

-- `none` is a nil file system.
pub record Options (F G : Type 0) : Type 0 where
  pub files : Option F
  pub patterns : List Bytes
  pub functions : G

-- `application_templates` has the keys of the map.
pub record Renderer (T : Type 0) : Type 0 where
  pub templates : T
  pub application_templates : List Bytes

pub data RendererError (E : Type 0) : Type 0 where
  filesystem_required pattern_required content_required : RendererError E
  reserved_name : Bytes → RendererError E
  parse_failed parse_shell_failed : E → RendererError E
  not_initialized name_required : RendererError E
  unknown_template : Bytes → RendererError E
  invalid_shell : ShellError → RendererError E
  execute_failed from_template : E → RendererError E

abbrev no_patterns : List Bytes → Bool
no_patterns [] = true
no_patterns (_ ∷ _) = false

abbrev pub shared_prefix : Bytes
shared_prefix = codes "shared-"

-- The loop of `NewRenderer` over the parsed templates.
unfoldable pub own_templates :
    {E : Type 0} → List (Bytes × Bool) → List Bytes → Result (RendererError E) (List Bytes)
own_templates [] names = ok names
own_templates ((name, has_tree) ∷ ts) names =
    let skipped = own_templates ts names in
    let added = own_templates ts (name ∷ names) in
    if not has_tree
    then skipped
    else if has_prefix name shared_prefix
    then err (reserved_name name)
    else added

module _ {F G T W D E : Type 0} (library : TemplateLibrary F G T W D E) where
  unfoldable pub new_renderer : Options F G → Result (RendererError E) (Renderer T)
  new_renderer opts = elim opts.files [
    | none ↦ err filesystem_required
    | some files ↦ do
      fail_if (no_patterns opts.patterns) pattern_required
      parsed ← map_err parse_failed (library.parse_application opts.functions files opts.patterns)
      fail_if (not (library.has_template parsed (codes "application-content"))) content_required
      names ← own_templates (library.templates parsed) []
      whole ← map_err parse_shell_failed (library.parse_shell parsed)
      ok (record { templates = whole; application_templates = names })
  ]

  -- `none` is a nil renderer, or one without templates.
  unfoldable pub render :
      (Bytes → Option Url)
      → Option (Renderer T)
      → W
      → Shell
      → D
      → Result (RendererError E) (Unit {0}) × W
  render parse none w shell d = (err not_initialized, w)
  render parse (some r) w shell d = elim (validate parse shell) [
    | err e ↦ (err (invalid_shell e), w)
    | ok _ ↦ forward execute_failed (
        library.execute_template r.templates w (codes "shared-shell")
          (page (record shell { labels = with_defaults shell.labels }) d))
  ]

  unfoldable pub execute_template :
      Option (Renderer T) → W → Bytes → D → Result (RendererError E) (Unit {0}) × W
  execute_template none w name d = (err not_initialized, w)
  execute_template (some r) w name d =
      if is_empty (trim_space name)
      then (err name_required, w)
      else if not (contains r.application_templates name)
      then (err (unknown_template name), w)
      else forward from_template (library.execute_template r.templates w name (value d))
