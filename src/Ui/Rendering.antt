-- ===== src/Ui/Rendering.antt =====
-- What a renderer executes.
use gouterstellar_platform.Base.{
  Bool-cases, Option-cases, Result, ok, err, ◌>>=◌, map_err, forward, Result-cases, bind_ok,
  ok-injective, seq_ok, map_err_ok, ◌≡◌, refl, ap, subst, ◌∙◌, ◌≢◌, ◌⊎◌, inl, inr, Bool, true,
  false, Option, some, List, [], ◌∷◌, ◌++◌, arith,
}
use gouterstellar_platform.Text.{Bytes, codes, is_empty, text_eq, text_eq_iff, contains}
use gouterstellar_platform.Text.Prefix.{has_prefix, ne-append_of_no_prefix}
use gouterstellar_platform.Text.Trim.{trim_space}
use gouterstellar_platform.Ui.Links.{Url, ShellError}
use gouterstellar_platform.Ui.Page.{Shell, ShellLabels, or_text, with_defaults, validate}
use gouterstellar_platform.Ui.Validation.{IsShell, validate_iff}
use gouterstellar_platform.Ui.Templates.{
  value, page, TemplateLibrary, Options, Renderer, RendererError, shared_prefix, own_templates,
  new_renderer, render, execute_template, execute_failed, from_template, name_required,
  unknown_template, parse_shell_failed, invalid_shell,
}

-- The application defined a template of the name, and the name is not one of the shared ones.
abbrev pub IsOwn : List (Bytes × Bool) → Bytes → Type 0
IsOwn ts name =
    (before : List (Bytes × Bool)) × (after : List (Bytes × Bool)) × (ts
      ≡ before ++ ((name, true) ∷ after))
    × ((rest : Bytes) → name ≢ shared_prefix ++ rest)

IsOwn-later :
    (t : Bytes × Bool) (ts : List (Bytes × Bool)) (name : Bytes)
    → IsOwn ts name
    → IsOwn (t ∷ ts) name
IsOwn-later t ts name (before, after, e, p) = (t ∷ before, after, ap (λ l. t ∷ l) e, p)

IsOwn-here :
    (n name : Bytes) (ts : List (Bytes × Bool))
    → has_prefix n shared_prefix ≡ false
    → n ≡ name
    → IsOwn ((n, true) ∷ ts) name
IsOwn-here n name ts p e =
    subst (IsOwn ((n, true) ∷ ts)) e
      ([], ts, refl, λ rest. ne-append_of_no_prefix n shared_prefix rest p)

contains_cons :
    (n name : Bytes) (names : List Bytes)
    → contains (n ∷ names) name ≡ true
    → (n ≡ name) ⊎ (contains names name ≡ true)
unfolding contains
contains_cons n name names h = elim (Bool-cases (text_eq n name)) [
  | inl e ↦ inl ((text_eq_iff n name).0 e)
  | inr f ↦ inr (ground arith)
]

own_templates_sound :
    {E : Type 0} (ts : List (Bytes × Bool)) (names out : List Bytes) (name : Bytes)
    → own_templates {E = E} ts names ≡ ok out
    → contains out name ≡ true
    → (contains names name ≡ true) ⊎ IsOwn ts name
unfolding own_templates
own_templates_sound [] names out name h c = inl (ground arith)
own_templates_sound {E} ((n, false) ∷ ts) names out name h c =
    elim (own_templates_sound {E = E} ts names out name h c) [
      | inl old ↦ inl old
      | inr own ↦ inr (IsOwn-later (n, false) ts name own)
    ]
own_templates_sound {E} ((n, true) ∷ ts) names out name h c =
    elim (Bool-cases (has_prefix n shared_prefix)) [
      | inl p ↦ cc (rw (p, own_templates) at h)
      | inr p ↦
          elim (own_templates_sound {E = E} ts (n ∷ names) out name (rw (p, own_templates) at h)
            c) [
              | inr own ↦ inr (IsOwn-later (n, true) ts name own)
              | inl found ↦ elim (contains_cons n name names found) [
                | inl e ↦ inr (IsOwn-here n name ts p e)
                | inr old ↦ inl old
              ]
            ]
    ]

finish_inv :
    {T E : Type 0} (whole : Result (RendererError E) T) (names : List Bytes) (r : Renderer T)
    → (whole >>= λ t. ok (record { templates = t; application_templates = names })) ≡ ok r
    → names ≡ r.application_templates
finish_inv (ok t) names r h = ap (λ q. q.application_templates) (ok-injective _ _ h)
finish_inv (err e) names r h = cc h

module _ {F G T W D E : Type 0} (library : TemplateLibrary F G T W D E) where
  -- What the making of a renderer went through.
  record Made (opts : Options F G) (r : Renderer T) : Type 0 where
    files : F
    files_eq : opts.files ≡ some files
    parsed : T
    parsed_eq : library.parse_application opts.functions files opts.patterns ≡ ok parsed
    names_eq : own_templates {E = E} (library.templates parsed) [] ≡ ok r.application_templates

  new_renderer_inv :
      (opts : Options F G) (r : Renderer T) → new_renderer library opts ≡ ok r → Made opts r
  unfolding new_renderer
  new_renderer_inv opts r h = elim (Option-cases opts.files) [
    | inl e ↦ cc (rw (e, new_renderer) at h)
    | inr (files, e) ↦
        let (_, h₁) = seq_ok _ _ (rw (e, new_renderer) at h) in
        let (parsed, p, h₂) = bind_ok _ _ h₁ in
        let (_, h₃) = seq_ok _ _ h₂ in
        let (names, n, h₄) = bind_ok _ _ h₃ in
        record {
          files = files;
          files_eq = e;
          parsed = parsed;
          parsed_eq = map_err_ok _ _ p;
          names_eq =
              n
              ∙ ap (λ q. ok q)
                  (finish_inv (map_err parse_shell_failed (library.parse_shell parsed)) names r h₄);
        }
  ]

  -- A renderer that `NewRenderer` made executes a template for the application in only one way: under
  -- a name that one of the application's own parsed templates has, which does not begin with
  -- "shared-". Every other name is refused, with nothing written.
  pub execute_template-IsOwn :
      (opts : Options F G) (r : Renderer T) (w : W) (name : Bytes) (d : D)
      → new_renderer library opts ≡ ok r
      → let q = execute_template library (some r) w name d in
        ((files : F) × (parsed : T) × (opts.files ≡ some files)
          × (library.parse_application opts.functions files opts.patterns ≡ ok parsed)
          × IsOwn (library.templates parsed) name
          × (q ≡ forward from_template (library.execute_template r.templates w name (value d))))
        ⊎ ((e : RendererError E) × (q ≡ (err e, w)))
  unfolding execute_template contains
  execute_template-IsOwn opts r w name d h = elim (Bool-cases (is_empty (trim_space name))) [
    | inl e ↦ inr (name_required, rw (e, execute_template) refl)
    | inr f ↦ elim (Bool-cases (contains r.application_templates name)) [
      | inr n ↦ inr (unknown_template name, rw (f, n, execute_template) refl)
      | inl c ↦
          let m = new_renderer_inv opts r h in
          elim (own_templates_sound {E = E} (library.templates m.parsed) [] r.application_templates
            name m.names_eq c) [
              | inl none_yet ↦ cc none_yet
              | inr own ↦ inl (
                m.files,
                m.parsed,
                m.files_eq,
                m.parsed_eq,
                own,
                rw (f, c, execute_template) refl,
              )
            ]
    ]
  ]

-- A text with its default: never empty, and the text itself if that is not empty.
abbrev pub IsFilled : Bytes → Bytes → Type 0
IsFilled given filled = (filled ≢ []) × (given ≢ [] → filled ≡ given)

abbrev pub IsLabelled : ShellLabels → ShellLabels → Type 0
IsLabelled given filled =
    IsFilled given.skip_to_content filled.skip_to_content
    × IsFilled given.primary_navigation filled.primary_navigation
    × IsFilled given.sign_out filled.sign_out

or_text-IsFilled : (s d : Bytes) → d ≢ [] → IsFilled s (or_text s d)
or_text-IsFilled [] d h = (h, λ n. absurd (n refl))
or_text-IsFilled (c ∷ s) d h = (λ e. cc e, λ n. refl)

with_defaults-IsLabelled : (l : ShellLabels) → IsLabelled l (with_defaults l)
unfolding with_defaults
with_defaults-IsLabelled l = (
  or_text-IsFilled l.skip_to_content _ (λ e. cc e),
  or_text-IsFilled l.primary_navigation _ (λ e. cc e),
  or_text-IsFilled l.sign_out _ (λ e. cc e),
)

module _ {F G T W D E : Type 0} (library : TemplateLibrary F G T W D E) where
  -- `Render` refuses a shell that is not in order, with nothing written. For one that is, it executes
  -- the shared shell with the application's data and the same shell but for its labels, of which the
  -- empty ones are filled in and the others kept.
  pub render_lem :
      (parse : Bytes → Option Url) (r : Renderer T) (w : W) (shell : Shell) (d : D)
      → let q = render library parse (some r) w shell d in
        (IsShell parse shell
          × (labels : ShellLabels) × IsLabelled shell.labels labels
          × (q
              ≡ forward execute_failed (
                  library.execute_template r.templates w
                    (codes "shared-shell")
                    (page (record shell { labels = labels }) d))))
        ⊎ ((¬ IsShell parse shell) × (e : ShellError) × (q ≡ (err (invalid_shell e), w)))
  unfolding render
  render_lem parse r w shell d = elim (Result-cases (validate parse shell)) [
    | inl (a, e) ↦ inl (
      (validate_iff parse shell).0 e,
      with_defaults shell.labels,
      with_defaults-IsLabelled shell.labels,
      rw (e, render) refl,
    )
    | inr (x, e) ↦ inr ((λ v. cc ((validate_iff parse shell).1 v, e)), x, rw (e, render) refl)
  ]
