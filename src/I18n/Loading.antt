-- ===== src/I18n/Loading.antt =====
-- What a catalog that `New` returns has of the bundles that were loaded.
use gouterstellar_platform.Base.{
  Bool-cases, Result, ok, fail_if, map_err, bind_ok, ok-injective, seq_ok, fail_if_ok, map_err_ok,
  ◌≡◌, refl, sym, ap, ◌∙◌, inl, inr, Bool, false, ◌||◌, some, List, [], ◌∷◌, ◌++◌,
}
use gouterstellar_platform.Text.{Bytes, text_eq, text_eq_iff, text_eq_refl}
use gouterstellar_platform.Text.Trim.{trim_space}
use gouterstellar_platform.Text.Dict.{Dict, lookup, insert, is_some}
use gouterstellar_platform.I18n.Catalog.{
  Language, invalid_code, duplicate_code, load_failed, load_languages,
}

module _ {E : Type 0} (load : Bytes → Result E (Dict Bytes)) (d : Bytes) where
  -- One language of the loop of `New`.
  load_inv :
      (l : Language) (ls : List Language) (raw raw' : Dict (Dict Bytes)) (found found' : Bool)
      (out : List Language)
      → load_languages load d (l ∷ ls) raw found ≡ ok (out, raw', found')
      → (bundle : Dict Bytes) × (rest : List Language) × (load (trim_space l.code) ≡ ok bundle)
        × (is_some (lookup raw (trim_space l.code)) ≡ false)
        × (load_languages load d ls
              (insert raw (trim_space l.code) bundle)
              (found || text_eq (trim_space l.code) d)
            ≡ ok (rest, raw', found'))
        × (out ≡ (record l { code = trim_space l.code } ∷ rest))
  unfolding load_languages
  load_inv l ls raw raw' found found' out h =
      let (_, h₁) = seq_ok (fail_if _ invalid_code) _ h in
      let (new_code, h₂) = seq_ok (fail_if _ duplicate_code) _ h₁ in
      let (bundle, loaded, h₃) = bind_ok (map_err load_failed (load (trim_space l.code))) _ h₂ in
      let (q, more, h₄) = bind_ok (load_languages load d ls _ _) _ h₃ in
      let e = ok-injective _ _ h₄ in
      (
        bundle,
        q.0,
        map_err_ok load_failed (load (trim_space l.code)) loaded,
        fail_if_ok _ _ new_code,
        more ∙ ap (λ x. ok (q.0, x.1, x.2)) e,
        sym (ap (λ x. x.0) e),
      )

  -- A bundle that was loaded is not replaced, since a code comes once.
  loaded_kept :
      (ls : List Language) (raw raw' : Dict (Dict Bytes)) (found found' : Bool)
      (out : List Language) (code : Bytes) (bundle : Dict Bytes)
      → load_languages load d ls raw found ≡ ok (out, raw', found')
      → lookup raw code ≡ some bundle
      → lookup raw' code ≡ some bundle
  unfolding load_languages lookup
  loaded_kept [] raw raw' found found' out code bundle h k =
      ap (λ x. lookup x.1 code) (sym (ok-injective _ _ h)) ∙ k
  loaded_kept (l ∷ ls) raw raw' found found' out code bundle h k =
      let (b, rest, loaded, new_code, more, _) = load_inv l ls raw raw' found found' out h in
      loaded_kept ls (insert raw (trim_space l.code) b) raw' _ found' rest code bundle more
        (elim (Bool-cases (text_eq (trim_space l.code) code)) [
          | inl hit ↦
              let same : trim_space l.code ≡ code = (text_eq_iff (trim_space l.code) code).0 hit in
              cc (new_code, ap (λ c. is_some (lookup raw c)) same, ap is_some k)
          | inr miss ↦ rw (miss, lookup) k
        ])

  pub member_loaded :
      (before : List Language) (l : Language) (after : List Language) (raw raw' : Dict (Dict Bytes))
      (found found' : Bool) (out : List Language)
      → load_languages load d (before ++ (l ∷ after)) raw found ≡ ok (out, raw', found')
      → (bundle : Dict Bytes) × (out_before : List Language) × (out_after : List Language) × (load
            (trim_space l.code)
          ≡ ok bundle)
        × (lookup raw' (trim_space l.code) ≡ some bundle)
        × (out ≡ out_before ++ (record l { code = trim_space l.code } ∷ out_after))
  unfolding lookup
  member_loaded [] l after raw raw' found found' out h =
      let (b, rest, loaded, _, more, e) = load_inv l after raw raw' found found' out h in
      (
        b,
        [],
        rest,
        loaded,
        loaded_kept after _ raw' _ found' rest (trim_space l.code) b more
            (rw (text_eq_refl (trim_space l.code), lookup) refl),
        e,
      )
  member_loaded (x ∷ before) l after raw raw' found found' out h =
      let (b, rest, _, _, more, e) =
        load_inv x (before ++ (l ∷ after)) raw raw' found found' out h in
      let (bundle, out_before, out_after, loaded, there, e') =
        member_loaded before l after _ raw' _ found' rest more in
      (
        bundle,
        record x { code = trim_space x.code } ∷ out_before,
        out_after,
        loaded,
        there,
        e ∙ ap (λ ys. record x { code = trim_space x.code } ∷ ys) e',
      )
