-- ===== src/Ui/Origins.antt =====
-- Which links `validateSameOriginPath` accepts.
use gouterstellar_platform.Base.{
  ==_iff, Option-cases, ok, All, ◌≡◌, refl, ap, ◌≢◌, ◌↔◌, ◌⊎◌, inl, inr, true, false, Option, some,
  [], ◌∷◌, arith,
}
use gouterstellar_platform.Text.{Bytes, is_empty}
use gouterstellar_platform.Ui.Links.{
  Url, starts_slash, starts_two_slashes, has_backslash, is_foreign, LinkKind,
  validate_same_origin_path, IsSameOrigin, IsLink,
}

no_backslash_sound : (s : Bytes) → has_backslash s ≡ false → All (λ c. c ≢ b'\\') s
unfolding has_backslash
no_backslash_sound [] h = tt
no_backslash_sound (c ∷ s) h =
    (λ e. ground (arith, ==_iff c b'\\'), no_backslash_sound s (ground arith))

no_backslash_complete : (s : Bytes) → All (λ c. c ≢ b'\\') s → has_backslash s ≡ false
unfolding has_backslash
no_backslash_complete [] h = refl
no_backslash_complete (c ∷ s) h = ground (arith, ==_iff c b'\\', h.0, no_backslash_complete s h.1)

empty_sound : (s : Bytes) → is_empty s ≡ true → s ≡ []
empty_sound [] h = refl
empty_sound (c ∷ s) h = cc h

one_slash_sound :
    (s : Bytes)
    → starts_slash s ≡ true
    → starts_two_slashes s ≡ false
    → (rest : Bytes) × (s ≡ b'/' ∷ rest) × ((t : Bytes) → rest ≢ b'/' ∷ t)
one_slash_sound [] h k = cc h
one_slash_sound (c ∷ s) h k =
    (s, ground (arith, ==_iff c b'/'), λ t e. ground (arith, ap starts_slash e))

IsSameOrigin-sound : (u : Url) → is_foreign (some u) ≡ false → IsSameOrigin u
unfolding is_foreign
IsSameOrigin-sound u h =
    let (rest, e, one) = one_slash_sound u.path (ground arith) (ground arith) in
    record {
      relative = ground arith;
      no_host = empty_sound u.host (ground arith);
      no_user = ground arith;
      no_opaque = empty_sound u.opaque (ground arith);
      rest = rest;
      absolute_path = e;
      one_slash = one;
      plain = no_backslash_sound u.path (ground arith);
    }

not_two_slashes :
    (rest : Bytes) → ((s : Bytes) → rest ≢ b'/' ∷ s) → starts_two_slashes (b'/' ∷ rest) ≡ false
not_two_slashes [] one = refl
not_two_slashes (c ∷ s) one =
    ground (arith, ==_iff c b'/', λ (e : c ≡ b'/'). one s (ap (λ d. d ∷ s) e))

same_origin_complete : (u : Url) → IsSameOrigin u → is_foreign (some u) ≡ false
unfolding is_foreign
same_origin_complete u v = ground (
  arith,
  ap is_empty v.no_host,
  ap is_empty v.no_opaque,
  ap starts_slash v.absolute_path,
  ap starts_two_slashes v.absolute_path,
  not_two_slashes v.rest v.one_slash,
  no_backslash_complete u.path v.plain,
)

module _ (parse : Bytes → Option Url) where
  foreign_sound : (value : Bytes) → is_foreign (parse value) ≡ false → IsLink parse value
  unfolding is_foreign
  foreign_sound value h = elim (Option-cases (parse value)) [
    | inl e ↦ cc (rw (e, is_foreign) at h)
    | inr (u, e) ↦ (u, e, IsSameOrigin-sound u (rw e at h))
  ]

  foreign_complete : (value : Bytes) → IsLink parse value → is_foreign (parse value) ≡ false
  foreign_complete value (u, e, v) = rw e (same_origin_complete u v)

  -- A link that has to be there is accepted exactly when it is on the same origin.
  pub required_iff :
      (kind : LinkKind) (value : Bytes)
      → (validate_same_origin_path parse kind value false ≡ ok tt) ↔ IsLink parse value
  unfolding validate_same_origin_path
  required_iff kind value =
      (λ h. foreign_sound value (ground arith), λ v. ground (arith, foreign_complete value v))

  -- One that may be missing, also when it is empty.
  pub optional_iff :
      (kind : LinkKind) (value : Bytes)
      → (validate_same_origin_path parse kind value true ≡ ok tt)
        ↔ ((value ≡ []) ⊎ IsLink parse value)
  unfolding validate_same_origin_path
  optional_iff kind [] = (λ h. inl refl, λ v. refl)
  optional_iff kind (c ∷ s) = (
    λ h. inr (foreign_sound (c ∷ s) (ground arith)),
    λ v. elim v [ inl e ↦ cc e | inr l ↦ ground (arith, foreign_complete (c ∷ s) l) ],
  )
