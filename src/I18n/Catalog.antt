-- ===== src/I18n/Catalog.antt =====
-- The catalog: `New`, `compileCatalog`, and the lookups of a localizer. What a file system holds for
-- a locale, parsed as properties, is a parameter.
use gouterstellar_platform.Base.{
  ◌==◌, Result, ok, ◌>>=◌, ◌>>◌, fail_if, map_err, Bool, true, false, not, ◌||◌, Option, none, some,
  List, [], ◌∷◌,
}
use gouterstellar_platform.Text.{Bytes, is_empty, text_eq}
use gouterstellar_platform.Text.Trim.{trim_space}
use gouterstellar_platform.Text.Dict.{Dict, lookup, insert, is_some}
use gouterstellar_platform.I18n.Signature.{MessageError, same_message_signature}
use gouterstellar_platform.I18n.Message.{
  CompiledMessage, compile_message, Fmt, render, inject_params,
}

pub record Language : Type 0 where
  pub code : Bytes
  pub display_name : Bytes
  pub native_name : Bytes

pub record Translator : Type 0 where
  pub default_locale : Bytes
  pub languages : List Language
  pub translations : Dict (Dict CompiledMessage)

pub record Localizer : Type 0 where
  pub translator : Translator
  pub locale : Bytes

pub data CatalogError (E : Type 0) : Type 0 where
  filesystem_required default_required language_required : CatalogError E
  invalid_code duplicate_code default_not_declared unsupported_locale : CatalogError E
  different_contract : Bytes → Bytes → CatalogError E
  invalid_message : Bytes → Bytes → MessageError → CatalogError E
  load_failed : E → CatalogError E

unfoldable pub differs : CompiledMessage → Option CompiledMessage → Bool
differs message none = false
differs message (some default_message) =
    not (same_message_signature message.signature default_message.signature)

-- `translations[code]`, which is the nil map where it is missing.
abbrev pub bundle_of : Dict (Dict Bytes) → Bytes → Dict Bytes
bundle_of raw code = elim (lookup raw code) [ none ↦ [] | some b ↦ b ]

-- `strings.ContainsAny(code, `/\\`)`.
has_slash : Bytes → Bool
has_slash [] = false
has_slash (c ∷ s) = c == b'/' || c == b'\\' || has_slash s

no_languages : List Language → Bool
no_languages [] = true
no_languages (_ ∷ _) = false

module _ {E : Type 0} where
  -- `compileBundle`.
  unfoldable pub compile_bundle :
      Bytes → Dict Bytes → Result (CatalogError E) (Dict CompiledMessage)
  compile_bundle locale [] = ok []
  compile_bundle locale ((key, message) ∷ rest) = do
    compiled ← map_err (invalid_message locale key) (compile_message message)
    others ← compile_bundle locale rest
    ok (insert others key compiled)

  -- The loop of `compileCatalog` over one bundle.
  unfoldable pub check_bundle :
      Dict CompiledMessage → Bytes → Dict CompiledMessage → Result (CatalogError E) (Unit {0})
  check_bundle defaults code [] = ok tt
  check_bundle defaults code ((key, message) ∷ rest) = do
    fail_if (differs message (lookup defaults key)) (different_contract code key)
    check_bundle defaults code rest

  -- The loop over the languages; the dictionary is what has been compiled so far.
  unfoldable pub compile_languages :
      Dict CompiledMessage
      → Bytes
      → Dict (Dict Bytes)
      → List Language
      → Dict (Dict CompiledMessage)
      → Result (CatalogError E) (Dict (Dict CompiledMessage))
  compile_languages defaults default_locale raw [] compiled = ok compiled
  compile_languages defaults default_locale raw (l ∷ ls) compiled =
      elim (text_eq l.code default_locale) [
        | true ↦ compile_languages defaults default_locale raw ls compiled
        | false ↦ do
          messages ← compile_bundle l.code (bundle_of raw l.code)
          check_bundle defaults l.code messages
          compile_languages defaults default_locale raw ls (insert compiled l.code messages)
      ]

  unfoldable pub compile_catalog :
      List Language
      → Bytes
      → Dict (Dict Bytes)
      → Result (CatalogError E) (Dict (Dict CompiledMessage))
  compile_catalog languages default_locale raw = do
    defaults ← compile_bundle default_locale (bundle_of raw default_locale)
    compile_languages defaults default_locale raw languages (insert [] default_locale defaults)

  -- The loop of `New`: codes are trimmed and checked, and bundles loaded. The result has the
  -- languages with their new codes, the bundles, and whether the default was among the codes.
  unfoldable pub load_languages :
      (Bytes → Result E (Dict Bytes))
      → Bytes
      → List Language
      → Dict (Dict Bytes)
      → Bool
      → Result (CatalogError E) (List Language × Dict (Dict Bytes) × Bool)
  unfolding has_slash
  load_languages load default_locale [] raw found = ok ([], raw, found)
  load_languages load default_locale (l ∷ ls) raw found = do
    let code = trim_space l.code
    fail_if (is_empty code || has_slash code) invalid_code
    fail_if (is_some (lookup raw code)) duplicate_code
    bundle ← map_err load_failed (load code)
    (rest, raw', found') ←
        load_languages load default_locale ls (insert raw code bundle)
          (found || text_eq code default_locale)
    ok (record l { code = code } ∷ rest, raw', found')

  -- The flag says whether a file system is given.
  unfoldable pub new :
      Bool
      → (Bytes → Result E (Dict Bytes))
      → Bytes
      → List Language
      → Result (CatalogError E) Translator
  unfolding no_languages
  new has_fs load default_option declared = do
    fail_if (not has_fs) filesystem_required
    let default_locale = trim_space default_option
    fail_if (is_empty default_locale) default_required
    fail_if (no_languages declared) language_required
    (languages, raw, found) ← load_languages load default_locale declared [] false
    fail_if (not found) default_not_declared
    translations ← compile_catalog languages default_locale raw
    ok (record {
      default_locale = default_locale;
      languages = languages;
      translations = translations;
    })

  unfoldable pub for_locale : Translator → Bytes → Result (CatalogError E) Localizer
  for_locale t locale = do
    fail_if (not (is_some (lookup t.translations locale))) unsupported_locale
    ok (record { translator = t; locale = locale })

unfoldable pub default_localizer : Translator → Localizer
default_localizer t = record { translator = t; locale = t.default_locale }

-- `translations[locale][key]`, with both tests.
unfoldable pub find_message : Translator → Bytes → Bytes → Option CompiledMessage
find_message t locale key = elim (lookup t.translations locale) [
  | none ↦ none
  | some bundle ↦ lookup bundle key
]

module _ {V : Type 0} (fmt : Fmt V) where
  unfoldable pub translate : Translator → Bytes → Bytes → Bytes → List V → Bytes
  translate t locale key fallback params = elim (find_message t locale key) [
    | some message ↦ render fmt message params
    | none ↦ elim (find_message t t.default_locale key) [
      | some message ↦ render fmt message params
      | none ↦ inject_params fmt fallback params
    ]
  ]

  unfoldable pub localizer_translate : Localizer → Bytes → List V → Bytes
  localizer_translate l key params = translate l.translator l.locale key key params

  unfoldable pub translate_or_default : Localizer → Bytes → Bytes → List V → Bytes
  translate_or_default l key default_value params =
      translate l.translator l.locale key default_value params
