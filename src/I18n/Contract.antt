-- ===== src/I18n/Contract.antt =====
-- What a catalog that `New` returns guarantees.
use gouterstellar_platform.Base.{
  Bool-cases, Option-cases, Result, ok, Result-cases, ◌≡◌, refl, sym, ap, subst, ◌∙◌, inl, inr,
  Bool, true, false, Option, none, some, List, [], ◌∷◌, arith,
}
use mathlib.Core.Option.{some-injective}
use gouterstellar_platform.Text.{Bytes, text_eq, text_eq_iff, text_eq_refl}
use gouterstellar_platform.Text.Trim.{trim_space}
use gouterstellar_platform.Text.Dict.{Dict, lookup, insert, is_some}
use gouterstellar_platform.I18n.Signature.{same_message_signature_sound}
use gouterstellar_platform.I18n.Message.{CompiledMessage}
use gouterstellar_platform.I18n.Catalog.{
  Language, Translator, differs, compile_bundle, check_bundle, bundle_of, compile_languages,
  compile_catalog, load_languages, new, find_message,
}

-- Two bundles whose common keys have the same parameters.
abbrev Agrees : Dict CompiledMessage → Dict CompiledMessage → Type 0
Agrees defaults bundle =
    (key : Bytes) (a b : CompiledMessage)
    → lookup bundle key ≡ some a
    → lookup defaults key ≡ some b
    → a.signature ≡ b.signature

differs_sound :
    (a b : CompiledMessage) (o : Option CompiledMessage)
    → differs a o ≡ false
    → o ≡ some b
    → a.signature ≡ b.signature
unfolding differs
differs_sound a b none h e = cc
differs_sound a b (some d) h e =
    ground (arith, same_message_signature_sound a.signature d.signature)

module _ {E : Type 0} (defaults : Dict CompiledMessage) where
  check_bundle-cons :
      (code k : Bytes) (m : CompiledMessage) (rest : Dict CompiledMessage)
      → check_bundle {E = E} defaults code ((k, m) ∷ rest) ≡ ok tt
      → (differs m (lookup defaults k) ≡ false) × (check_bundle {E = E} defaults code rest ≡ ok tt)
  unfolding check_bundle
  check_bundle-cons code k m rest h = ground arith

  check_bundle-Agrees :
      (code : Bytes) (bundle : Dict CompiledMessage)
      → check_bundle {E = E} defaults code bundle ≡ ok tt
      → Agrees defaults bundle
  unfolding lookup
  check_bundle-Agrees code [] h key a b e f = cc
  check_bundle-Agrees code ((k, m) ∷ rest) h key a b e f =
      let (same, more) = check_bundle-cons code k m rest h in
      elim (Bool-cases (text_eq k key)) [
        | inl hit ↦
            differs_sound a b (lookup defaults k) (ground arith)
              (ap (lookup defaults) ((text_eq_iff k key).0 hit) ∙ f)
        | inr miss ↦ check_bundle-Agrees code rest more key a b (rw (miss, lookup) at e) f
      ]

module _ (defaults : Dict CompiledMessage) where
  -- What the loop over the languages keeps.
  pub record IsCatalog (default_locale : Bytes) (c : Dict (Dict CompiledMessage)) : Type 0 where
    pub default_kept : lookup c default_locale ≡ some defaults
    pub agree :
        (locale : Bytes) (bundle : Dict CompiledMessage)
        → lookup c locale ≡ some bundle
        → Agrees defaults bundle

  insert-IsCatalog :
      (d code : Bytes) (c : Dict (Dict CompiledMessage)) (bundle : Dict CompiledMessage)
      → text_eq code d ≡ false
      → Agrees defaults bundle
      → IsCatalog d c
      → IsCatalog d (insert c code bundle)
  unfolding lookup
  insert-IsCatalog d code c bundle other agrees v = record {
    default_kept = rw (other, lookup) v.default_kept;
    agree = λ locale b e. elim (Bool-cases (text_eq code locale)) [
      | inl hit ↦ subst (Agrees defaults) (ground arith) agrees
      | inr miss ↦ v.agree locale b (rw (miss, lookup) at e)
    ];
  }

module _ {E : Type 0} (defaults : Dict CompiledMessage) where
  pub language_inv :
      (d : Bytes) (raw : Dict (Dict Bytes)) (l : Language) (ls : List Language)
      (c result : Dict (Dict CompiledMessage))
      → text_eq l.code d ≡ false
      → compile_languages {E = E} defaults d raw (l ∷ ls) c ≡ ok result
      → (messages : Dict CompiledMessage) × (compile_bundle {E = E} l.code (bundle_of raw l.code)
          ≡ ok messages)
        × (check_bundle {E = E} defaults l.code messages ≡ ok tt)
        × (compile_languages {E = E} defaults d raw ls (insert c l.code messages) ≡ ok result)
  unfolding compile_languages
  language_inv d raw l ls c result other h =
      elim (Result-cases (compile_bundle {E = E} l.code (bundle_of raw l.code))) [
        | inl (messages, e) ↦ elim (Result-cases (check_bundle {E = E} defaults l.code messages)) [
          | inl (u, f) ↦ (messages, e, f, rw (other, e, f, compile_languages) at h)
          | inr (x, f) ↦ cc (rw (other, e, f, compile_languages) at h)
        ]
        | inr (x, e) ↦ cc (rw (other, e, compile_languages) at h)
      ]

  compile_languages-IsCatalog :
      (d : Bytes) (raw : Dict (Dict Bytes)) (ls : List Language)
      (c result : Dict (Dict CompiledMessage))
      → IsCatalog defaults d c
      → compile_languages {E = E} defaults d raw ls c ≡ ok result
      → IsCatalog defaults d result
  unfolding compile_languages
  compile_languages-IsCatalog d raw [] c result v h = subst (IsCatalog defaults d) (ground arith) v
  compile_languages-IsCatalog d raw (l ∷ ls) c result v h = elim (Bool-cases (text_eq l.code d)) [
    | inl same ↦ compile_languages-IsCatalog d raw ls c result v (rw (same, compile_languages) at h)
    | inr other ↦
        let (messages, _, checked, more) = language_inv d raw l ls c result other h in
        compile_languages-IsCatalog d raw ls (insert c l.code messages) result
          (insert-IsCatalog defaults d l.code c messages other
            (check_bundle-Agrees {E = E} defaults l.code messages checked) v)
          more
  ]

Agrees-refl : (defaults : Dict CompiledMessage) → Agrees defaults defaults
Agrees-refl defaults key a b e f = ap (λ m. m.signature) (some-injective _ _ (sym e ∙ f))

start-IsCatalog :
    (defaults : Dict CompiledMessage) (d : Bytes) → IsCatalog defaults d (insert [] d defaults)
unfolding lookup
start-IsCatalog defaults d = record {
  default_kept = rw (text_eq_refl d, lookup) refl;
  agree = λ locale b e. elim (Bool-cases (text_eq d locale)) [
    | inl hit ↦
        subst (Agrees defaults) (some-injective _ _ (rw (hit, lookup) at e)) (Agrees-refl defaults)
    | inr miss ↦ cc (rw (miss, lookup) at e)
  ];
}

compile_catalog-IsCatalog :
    {E : Type 0} (languages : List Language) (d : Bytes) (raw : Dict (Dict Bytes))
    (result : Dict (Dict CompiledMessage))
    → compile_catalog {E = E} languages d raw ≡ ok result
    → (defaults : Dict CompiledMessage) × IsCatalog defaults d result
unfolding compile_catalog
compile_catalog-IsCatalog {E} languages d raw result h =
    elim (Result-cases (compile_bundle {E = E} d (bundle_of raw d))) [
      | inl (defaults, e) ↦ (
        defaults,
        compile_languages-IsCatalog {E = E} defaults d raw languages _ result
            (start-IsCatalog defaults d) (rw (e, compile_catalog) at h),
      )
      | inr (x, e) ↦ cc (rw (e, compile_catalog) at h)
    ]

pub new_inv :
    {E : Type 0} (has_fs : Bool) (load : Bytes → Result E (Dict Bytes)) (option : Bytes)
    (declared : List Language) (t : Translator)
    → new has_fs load option declared ≡ ok t
    → (languages : List Language) × (raw : Dict (Dict Bytes)) × (found : Bool) × (load_languages
          load
          (trim_space option)
          declared
          []
          false
        ≡ ok (languages, raw, found))
      × (compile_catalog {E = E} languages t.default_locale raw ≡ ok t.translations)
unfolding new
new_inv has_fs load option declared t h =
    elim (Result-cases (load_languages load (trim_space option) declared [] false)) [
      | inl ((languages, raw, found), e) ↦ (languages, raw, found, e, ground (arith, e))
      | inr (x, e) ↦ absurd (ground (arith, e))
    ]

find_inv :
    (t : Translator) (locale key : Bytes) (a : CompiledMessage)
    → find_message t locale key ≡ some a
    → (bundle : Dict CompiledMessage) × (lookup t.translations locale ≡ some bundle)
      × (lookup bundle key ≡ some a)
unfolding find_message
find_inv t locale key a h = elim (Option-cases (lookup t.translations locale)) [
  | inl e ↦ cc (rw (e, find_message) at h)
  | inr (bundle, e) ↦ (bundle, e, rw (e, find_message) at h)
]

-- In a translator that was made, wherever a locale and the default locale have a message for the
-- same key, the two take the same parameters.
pub new_contract :
    {E : Type 0} (has_fs : Bool) (load : Bytes → Result E (Dict Bytes)) (option : Bytes)
    (declared : List Language) (t : Translator) (locale key : Bytes) (a b : CompiledMessage)
    → new has_fs load option declared ≡ ok t
    → find_message t locale key ≡ some a
    → find_message t t.default_locale key ≡ some b
    → a.signature ≡ b.signature
new_contract has_fs load option declared t locale key a b h e f =
    let (languages, raw, _, _, compiled) = new_inv has_fs load option declared t h in
    let (defaults, v) =
      compile_catalog-IsCatalog languages t.default_locale raw t.translations compiled in
    let (bundle, e₁, e₂) = find_inv t locale key a e in
    let (default_bundle, f₁, f₂) = find_inv t t.default_locale key b f in
    v.agree locale bundle e₁ key a b e₂
      (ap (λ c. lookup c key) (some-injective _ _ (sym v.default_kept ∙ f₁)) ∙ f₂)

-- The default locale of a translator that was made is supported.
pub new_default :
    {E : Type 0} (has_fs : Bool) (load : Bytes → Result E (Dict Bytes)) (option : Bytes)
    (declared : List Language) (t : Translator)
    → new has_fs load option declared ≡ ok t
    → is_some (lookup t.translations t.default_locale) ≡ true
new_default has_fs load option declared t h =
    let (languages, raw, _, _, compiled) = new_inv has_fs load option declared t h in
    let (defaults, v) =
      compile_catalog-IsCatalog languages t.default_locale raw t.translations compiled in
    ap is_some v.default_kept
