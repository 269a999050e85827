-- ===== src/I18n/Files.antt =====
-- The options of `New`, and `loadBundle`. Package fs, `path.Join` and the properties library are an
-- interface.
use gouterstellar_platform.Base.{
  Result, ok, ◌>>=◌, map_err, true, false, Option, none, some, List, [], ◌++◌,
}
use gouterstellar_platform.Text.{Bytes, codes}
use gouterstellar_platform.Text.Trim.{trim_space}
use gouterstellar_platform.Text.Dict.{Dict}
use gouterstellar_platform.I18n.Catalog.{Language, Translator, Localizer, CatalogError, new}

-- `none` is a nil file system.
pub record Options (F : Type 0) : Type 0 where
  pub fs : Option F
  pub base_path : Bytes
  pub default_locale : Bytes
  pub languages : List Language

-- `load_properties` is the loader for UTF-8 without expansion.
pub record Files (F E : Type 0) : Type 0 where
  pub join : Bytes → Bytes → Bytes
  pub read_file : F → Bytes → Result E Bytes
  pub load_properties : Bytes → Result E (Dict Bytes)

pub data LoadError (E : Type 0) : Type 0 where
  load_locale : Bytes → Bytes → E → LoadError E
  parse_error : E → LoadError E

module _ {F E : Type 0} (files : Files F E) where
  unfoldable pub parse_properties : Bytes → Result (LoadError E) (Dict Bytes)
  parse_properties bytes = map_err parse_error (files.load_properties bytes)

  unfoldable pub load_bundle : F → Bytes → Bytes → Result (LoadError E) (Dict Bytes)
  load_bundle fsys base_path locale = do
    let filename = files.join (trim_space base_path) (locale ++ codes ".properties")
    bytes ← map_err (load_locale locale filename) (files.read_file fsys filename)
    parse_properties bytes

  -- `New` of the options; without a file system nothing is loaded.
  unfoldable pub new_catalog : Options F → Result (CatalogError (LoadError E)) Translator
  new_catalog opts = elim opts.fs [
    | none ↦ new false (λ code. ok []) opts.default_locale opts.languages
    | some fsys ↦ new true (load_bundle fsys opts.base_path) opts.default_locale opts.languages
  ]

-- The methods `Languages`, a copy, and `Locale`.
unfoldable pub languages_of : Translator → List Language
languages_of t = t.languages

unfoldable pub locale_of : Localizer → Bytes
locale_of l = l.locale
