-- ===== src/I18n/Tests.antt =====
-- Messages and a catalog of two locales, over a formatter that marks what it formats.
use gouterstellar_platform.Base.{
  if◌then◌else◌, Result, ok, err, ℕ, ◌+◌, ◌≡◌, refl, true, false, some, [], ◌∷◌, ◌++◌,
}
use gouterstellar_platform.Text.{Bytes, codes, text_eq}
use gouterstellar_platform.Text.Trim.{trim_space}
use gouterstellar_platform.Text.Dict.{Dict, lookup}
use gouterstellar_platform.I18n.{
  find_all, match_at, digits, atoi, collect, sort_ints, scan_verbs, has_format, is_java_verb,
  percent, same_message_signature, unsupported_verb, parse_message_signature, CompiledMessage,
  compile_placeholders, compile_message, Fmt, substitute, no_params, render_from, render, replace,
  replace_all, inject_params, Language, Translator, different_contract, differs, compile_bundle,
  check_bundle, compile_languages, compile_catalog, load_languages, new, find_message, translate,
}
use gouterstellar_platform.I18n.Rendering.{render-inject_params}
use gouterstellar_platform.I18n.Contract.{new_contract}
use gouterstellar_platform.I18n.Compiling.{new_translates}

abbrev fmt : Fmt Bytes
fmt = record { sprint = λ v. v; sprintf = λ f vs. codes "!" ++ f }

abbrev greeting : CompiledMessage
greeting = record {
  template = codes "Hi {0}, {1}!";
  placeholders =
      record { start = 3; end = 6; index = 0 } ∷ record { start = 8; end = 11; index = 1 } ∷ [];
  signature = record { indexed = 0 ∷ 1 ∷ []; verbs = [] };
  formatted = false;
}

compiled : compile_message (codes "Hi {0}, {1}!") ≡ ok greeting
unfolding compile_message parse_message_signature compile_placeholders find_all match_at digits atoi
    collect sort_ints scan_verbs has_format
compiled = refl

rendered : render fmt greeting (codes "Ada" ∷ []) ≡ codes "Hi Ada, {1}!"
unfolding render no_params render_from substitute
rendered = refl

render-inject_params_example :
    render fmt greeting (codes "Ada" ∷ [])
    ≡ inject_params fmt (codes "Hi {0}, {1}!") (codes "Ada" ∷ [])
unfolding has_format replace_all replace match_at digits atoi substitute
render-inject_params_example =
    render-inject_params fmt (codes "Hi {0}, {1}!") greeting (codes "Ada" ∷ []) compiled refl

java_verb : parse_message_signature (codes "%5d {0}") ≡ err unsupported_verb
unfolding parse_message_signature find_all match_at digits atoi collect scan_verbs has_format
    is_java_verb percent
java_verb = refl

verbs : scan_verbs true false (codes "%s 100%% %d") ≡ ok (b's' ∷ b'd' ∷ [])
unfolding scan_verbs percent is_java_verb digits
verbs = refl

-- An escaped percent sign before an s is no verb, but the text counts as formatted.
escaped_verb :
    (scan_verbs true false (codes "100%%s") ≡ ok []) × (has_format (codes "100%%s") ≡ true)
unfolding scan_verbs percent has_format
escaped_verb = (refl, refl)

abbrev language : Bytes → Language
language code = record { code = code; display_name = []; native_name = [] }

load : Bytes → Result ℕ (Dict Bytes)
load code =
    if text_eq code (codes "en")
    then ok ((codes "k", codes "Hi {0}") ∷ [])
    else ok ((codes "k", codes "Hallo {0}") ∷ [])

abbrev message : Bytes → ℕ → CompiledMessage
message text start = record {
  template = text;
  placeholders = record { start = start; end = start + 3; index = 0 } ∷ [];
  signature = record { indexed = 0 ∷ []; verbs = [] };
  formatted = false;
}

abbrev english : CompiledMessage
english = message (codes "Hi {0}") 3

abbrev german : CompiledMessage
german = message (codes "Hallo {0}") 6

abbrev translator : Translator
translator = record {
  default_locale = codes "en";
  languages = language (codes "en") ∷ language (codes "de") ∷ [];
  translations =
      (codes "de", (codes "k", german) ∷ []) ∷ (codes "en", (codes "k", english) ∷ []) ∷ [];
}

made :
    new true load (codes "en ") (language (codes "en") ∷ language (codes " de") ∷ [])
    ≡ ok translator
unfolding new load load_languages trim_space text_eq lookup compile_catalog compile_languages
    compile_bundle check_bundle differs same_message_signature compile_message
    parse_message_signature compile_placeholders find_all match_at digits atoi collect sort_ints
    scan_verbs has_format
made = refl

german_found : find_message translator (codes "de") (codes "k") ≡ some german
unfolding find_message lookup text_eq
german_found = refl

english_found : find_message translator (codes "en") (codes "k") ≡ some english
unfolding find_message lookup text_eq
english_found = refl

new_contract_example : german.signature ≡ english.signature
new_contract_example =
    new_contract true load (codes "en ") (language (codes "en") ∷ language (codes " de") ∷ [])
      translator (codes "de") (codes "k") german english made german_found english_found

other_contract :
    compile_catalog {E = ℕ} (language (codes "de") ∷ []) (codes "en") (
      (codes "en", (codes "k", codes "{0}") ∷ [])
      ∷ (codes "de", (codes "k", codes "{1}") ∷ [])
      ∷ [])
    ≡ err (different_contract (codes "de") (codes "k"))
unfolding text_eq lookup compile_catalog compile_languages compile_bundle check_bundle differs
    same_message_signature compile_message parse_message_signature compile_placeholders find_all
    match_at digits atoi collect sort_ints scan_verbs has_format
other_contract = refl

fallback :
    translate fmt translator (codes "de") (codes "x") (codes "no {0}") (codes "way" ∷ [])
    ≡ codes "no way"
unfolding translate find_message lookup text_eq inject_params no_params has_format replace_all
    replace match_at digits atoi substitute
fallback = refl

german_loaded : load (trim_space (codes " de")) ≡ ok ((codes "k", codes "Hallo {0}") ∷ [])
unfolding load trim_space text_eq
german_loaded = refl

german_text : lookup ((codes "k", codes "Hallo {0}") ∷ []) (codes "k") ≡ some (codes "Hallo {0}")
unfolding lookup text_eq
german_text = refl

-- The German text is that of the file for "de".
new_translates_example :
    (compiled : CompiledMessage) × (compile_message (codes "Hallo {0}") ≡ ok compiled)
    × (find_message translator (trim_space (codes " de")) (codes "k") ≡ some compiled)
new_translates_example =
    new_translates true load (codes "en ") (language (codes "en") ∷ []) [] (language (codes " de"))
      translator ((codes "k", codes "Hallo {0}") ∷ []) (codes "k") (codes "Hallo {0}") made
      german_loaded german_text
