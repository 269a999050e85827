-- ===== src/Text/Dict.antt =====
-- A Go map with string keys, as an association list in which the first entry of a key counts.
use gouterstellar_platform.Base.{
  if◌then◌else◌, ◌≡◌, refl, Bool, true, false, Option, none, some, List, [], ◌∷◌,
}
use gouterstellar_platform.Text.Defs.{Bytes, text_eq}

abbrev pub Dict {ℓ} : Type ℓ → Type ℓ
Dict V = List (Bytes × V)

module _ {ℓ} {V : Type ℓ} where
  unfoldable pub lookup : Dict V → Bytes → Option V
  lookup [] k = none
  lookup ((j, v) ∷ d) k = if text_eq j k then some v else lookup d k

  abbrev pub insert : Dict V → Bytes → V → Dict V
  insert d k v = (k, v) ∷ d

  pub lookup-insert :
      (d : Dict V) (k j : Bytes) (v : V)
      → lookup (insert d k v) j ≡ (if text_eq k j then some v else lookup d j)
  unfolding lookup
  lookup-insert d k j v = refl

  -- `_, ok := d[k]`.
  abbrev pub is_some : Option V → Bool
  is_some none = false
  is_some (some v) = true
