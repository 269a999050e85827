-- ===== src/I18n/Compiling.antt =====
-- What a catalog that `New` returns says for the messages of the bundles that were loaded.
use gouterstellar_platform.Base.{
  Bool-cases, Result, ok, map_err, bind_ok, ok-injective, map_err_ok, ◌≡◌, refl, sym, ap, subst,
  ◌∙◌, inl, inr, Bool, true, false, Option, none, some, List, [], ◌∷◌, ◌++◌,
}
use mathlib.Core.Option.{some-injective}
use gouterstellar_platform.Text.{Bytes, text_eq, text_eq_iff, text_eq_refl}
use gouterstellar_platform.Text.Trim.{trim_space}
use gouterstellar_platform.Text.Dict.{Dict, lookup, insert, is_some}
use gouterstellar_platform.I18n.Message.{CompiledMessage, compile_message}
use gouterstellar_platform.I18n.Catalog.{
  Language, Translator, invalid_message, compile_bundle, bundle_of, compile_languages,
  compile_catalog, new, find_message,
}
use gouterstellar_platform.I18n.Contract.{language_inv, new_inv}
use gouterstellar_platform.I18n.Loading.{member_loaded}

is_some_iff : {V : Type 0} (o : Option V) → is_some o ≡ true → (v : V) × (o ≡ some v)
is_some_iff none h = cc h
is_some_iff (some v) h = (v, refl)

insert-kept :
    (c : Dict (Dict CompiledMessage)) (code other : Bytes) (m : Dict CompiledMessage)
    → is_some (lookup c other) ≡ true
    → is_some (lookup (insert c code m) other) ≡ true
unfolding lookup
insert-kept c code other m h = elim (Bool-cases (text_eq code other)) [
  | inl hit ↦ rw (hit, lookup) refl
  | inr miss ↦ rw (miss, lookup) h
]

module _ (E : Type 0) (raw : Dict (Dict Bytes)) where
  -- Every compiled bundle is that of its locale.
  abbrev Faithful : Dict (Dict CompiledMessage) → Type 0
  Faithful c =
      (code : Bytes) (m : Dict CompiledMessage)
      → lookup c code ≡ some m
      → compile_bundle {E = E} code (bundle_of raw code) ≡ ok m

  insert-Faithful :
      (c : Dict (Dict CompiledMessage)) (code : Bytes) (m : Dict CompiledMessage)
      → compile_bundle {E = E} code (bundle_of raw code) ≡ ok m
      → Faithful c
      → Faithful (insert c code m)
  unfolding lookup
  insert-Faithful c code m e f other n h = elim (Bool-cases (text_eq code other)) [
    | inl hit ↦
        let same = (text_eq_iff code other).0 hit in
        let k = some-injective _ _ (rw (hit, lookup) at h) in
        subst (λ x. compile_bundle {E = E} x (bundle_of raw x) ≡ ok n) same (e ∙ ap (λ x. ok x) k)
    | inr miss ↦ f other n (rw (miss, lookup) at h)
  ]

  module _ (defaults : Dict CompiledMessage) (d : Bytes) where
    compiled-Faithful :
        (ls : List Language) (c result : Dict (Dict CompiledMessage))
        → Faithful c
        → compile_languages {E = E} defaults d raw ls c ≡ ok result
        → Faithful result
    unfolding compile_languages
    compiled-Faithful [] c result f h = subst Faithful (ok-injective _ _ h) f
    compiled-Faithful (l ∷ ls) c result f h = elim (Bool-cases (text_eq l.code d)) [
      | inl same ↦ compiled-Faithful ls c result f (rw (same, compile_languages) at h)
      | inr other ↦
          let (m, compiled, _, more) = language_inv {E = E} defaults d raw l ls c result other h in
          compiled-Faithful ls (insert c l.code m) result (insert-Faithful c l.code m compiled f)
            more
    ]

    compiled_kept :
        (ls : List Language) (c result : Dict (Dict CompiledMessage)) (code : Bytes)
        → is_some (lookup c code) ≡ true
        → compile_languages {E = E} defaults d raw ls c ≡ ok result
        → is_some (lookup result code) ≡ true
    unfolding compile_languages
    compiled_kept [] c result code f h =
        ap (λ x. is_some (lookup x code)) (sym (ok-injective _ _ h)) ∙ f
    compiled_kept (l ∷ ls) c result code f h = elim (Bool-cases (text_eq l.code d)) [
      | inl same ↦ compiled_kept ls c result code f (rw (same, compile_languages) at h)
      | inr other ↦
          let (m, _, _, more) = language_inv {E = E} defaults d raw l ls c result other h in
          compiled_kept ls (insert c l.code m) result code (insert-kept c l.code code m f) more
    ]

    member_compiled :
        (before : List Language) (l : Language) (after : List Language)
        (c result : Dict (Dict CompiledMessage))
        → is_some (lookup c d) ≡ true
        → compile_languages {E = E} defaults d raw (before ++ (l ∷ after)) c ≡ ok result
        → is_some (lookup result l.code) ≡ true
    unfolding compile_languages lookup
    member_compiled [] l after c result f h = elim (Bool-cases (text_eq l.code d)) [
      | inl same ↦
          subst (λ x. is_some (lookup result x) ≡ true) (sym ((text_eq_iff l.code d).0 same))
            (compiled_kept (l ∷ after) c result d f h)
      | inr other ↦
          let (m, _, _, more) = language_inv {E = E} defaults d raw l after c result other h in
          compiled_kept after (insert c l.code m) result l.code
            (rw (text_eq_refl l.code, lookup) refl) more
    ]
    member_compiled (x ∷ before) l after c result f h = elim (Bool-cases (text_eq x.code d)) [
      | inl same ↦ member_compiled before l after c result f (rw (same, compile_languages) at h)
      | inr other ↦
          let (m, _, _, more) =
            language_inv {E = E} defaults d raw x (before ++ (l ∷ after)) c result other h in
          member_compiled before l after (insert c x.code m) result (insert-kept c x.code d m f)
            more
    ]

-- A bundle's messages are compiled one by one.
bundle_compiled :
    {E : Type 0} (locale : Bytes) (bundle : Dict Bytes) (m : Dict CompiledMessage)
    (key text : Bytes)
    → compile_bundle {E = E} locale bundle ≡ ok m
    → lookup bundle key ≡ some text
    → (compiled : CompiledMessage) × (compile_message text ≡ ok compiled)
      × (lookup m key ≡ some compiled)
unfolding compile_bundle lookup
bundle_compiled locale [] m key text h k = cc k
bundle_compiled {E} locale ((j, v) ∷ rest) m key text h k =
    let (compiled, e, h₁) = bind_ok (map_err (invalid_message locale j) (compile_message v)) _ h in
    let (others, e', h₂) = bind_ok (compile_bundle {E = E} locale rest) _ h₁ in
    let inserted = ok-injective _ _ h₂ in
    elim (Bool-cases (text_eq j key)) [
      | inl hit ↦
          let same = some-injective _ _ (rw (hit, lookup) at k) in
          (
            compiled,
            ap compile_message (sym same)
                ∙ map_err_ok (invalid_message locale j) (compile_message v) e,
            ap (λ x. lookup x key) (sym inserted) ∙ rw (hit, lookup) refl,
          )
      | inr miss ↦
          let (c, done, there) =
            bundle_compiled {E = E} locale rest others key text e' (rw (miss, lookup) at k) in
          (c, done, ap (λ x. lookup x key) (sym inserted) ∙ rw (miss, lookup) there)
    ]

catalog_inv :
    {E : Type 0} (languages : List Language) (d : Bytes) (raw : Dict (Dict Bytes))
    (result : Dict (Dict CompiledMessage))
    → compile_catalog {E = E} languages d raw ≡ ok result
    → (defaults : Dict CompiledMessage) × (compile_bundle {E = E} d (bundle_of raw d) ≡ ok defaults)
      × (compile_languages {E = E} defaults d raw languages (insert [] d defaults) ≡ ok result)
unfolding compile_catalog
catalog_inv {E} languages d raw result h = bind_ok (compile_bundle {E = E} d (bundle_of raw d)) _ h

start-Faithful :
    (E : Type 0) (raw : Dict (Dict Bytes)) (d : Bytes) (defaults : Dict CompiledMessage)
    → compile_bundle {E = E} d (bundle_of raw d) ≡ ok defaults
    → Faithful E raw (insert [] d defaults)
unfolding lookup
start-Faithful E raw d defaults e = insert-Faithful E raw [] d defaults e (λ code m h. cc h)

start_has :
    (d : Bytes) (defaults : Dict CompiledMessage) → is_some (lookup (insert [] d defaults) d) ≡ true
unfolding lookup
start_has d defaults = rw (text_eq_refl d, lookup) refl

found_in :
    (t : Translator) (code key : Bytes) (m : Dict CompiledMessage) (c : CompiledMessage)
    → lookup t.translations code ≡ some m
    → lookup m key ≡ some c
    → find_message t code key ≡ some c
unfolding find_message
found_in t code key m c e f = rw (e, find_message) f

bundle_there :
    (raw : Dict (Dict Bytes)) (code : Bytes) (bundle : Dict Bytes)
    → lookup raw code ≡ some bundle
    → bundle_of raw code ≡ bundle
bundle_there raw code bundle h = rw (h, bundle_of) refl

-- A translator that was made has, for each declared language and each message of the bundle that was
-- loaded for its trimmed code, the compiled form of that message under the message's key.
pub new_translates :
    {E : Type 0} (has_fs : Bool) (load : Bytes → Result E (Dict Bytes)) (option : Bytes)
    (before after : List Language) (l : Language) (t : Translator) (bundle : Dict Bytes)
    (key text : Bytes)
    → new has_fs load option (before ++ (l ∷ after)) ≡ ok t
    → load (trim_space l.code) ≡ ok bundle
    → lookup bundle key ≡ some text
    → (compiled : CompiledMessage) × (compile_message text ≡ ok compiled)
      × (find_message t (trim_space l.code) key ≡ some compiled)
new_translates {E} has_fs load option before after l t bundle key text h loaded k =
    let code = trim_space l.code in
    let d = t.default_locale in
    let (languages, raw, found, all_loaded, made) =
      new_inv has_fs load option (before ++ (l ∷ after)) t h in
    let (b, out_before, out_after, loaded', there, split) =
      member_loaded load (trim_space option) before l after [] raw false found languages
        all_loaded in
    let same : b ≡ bundle = ok-injective b bundle (sym loaded' ∙ loaded) in
    let (defaults, first, looped) = catalog_inv languages d raw t.translations made in
    let faithful =
      compiled-Faithful E raw defaults d languages _ t.translations
        (start-Faithful E raw d defaults first) looped in
    let present =
      member_compiled E raw defaults d out_before (record l { code = code }) out_after _
        t.translations (start_has d defaults)
        (ap (λ ls. compile_languages {E = E} defaults d raw ls (insert [] d defaults)) (sym split)
          ∙ looped) in
    let (m, at_code) = is_some_iff (lookup t.translations code) present in
    let (compiled, e, inside) =
      bundle_compiled {E = E} code bundle m key text
        (ap (compile_bundle {E = E} code)
            (sym (bundle_there raw code bundle (there ∙ ap some same)))
          ∙ faithful code m at_code)
        k in
    (compiled, e, found_in t code key m compiled at_code inside)
