-- ===== src/Text/Split.antt =====
-- `strings.Split` at one byte.
use gouterstellar_platform.Base.{
  ◌==◌, if◌then◌else◌, Bool-cases, length, ℕ, suc, ◌+◌, ◌≡◌, refl, ◌≢◌, inl, inr, List, [], ◌∷◌,
  arith,
}
use mathlib.Core.List.{cons-ne-nil}
use gouterstellar_platform.Text.Defs.{Bytes, codes}

-- A byte put before the first part.
unfoldable pub grow : ℕ → List Bytes → List Bytes
grow c [] = (c ∷ []) ∷ []
grow c (p ∷ ps) = (c ∷ p) ∷ ps

unfoldable pub split : Bytes → ℕ → List Bytes
split [] sep = [] ∷ []
split (c ∷ s) sep = let rest = split s sep in if c == sep then [] ∷ rest else grow c rest

split_parts : split (codes "$a$$b") b'$' ≡ [] ∷ codes "a" ∷ [] ∷ codes "b" ∷ []
unfolding split grow
split_parts = refl

-- The length of the parts with a separator behind each.
abbrev pub joined_length : List Bytes → ℕ
joined_length [] = 0
joined_length (p ∷ ps) = suc (length p) + joined_length ps

grow-joined_length :
    (c : ℕ) (ps : List Bytes) → ps ≢ [] → joined_length (grow c ps) ≡ suc (joined_length ps)
unfolding grow
grow-joined_length c [] h = absurd (h refl)
grow-joined_length c (p ∷ ps) h = omega arith

grow-ne-nil : (c : ℕ) (ps : List Bytes) → grow c ps ≢ []
unfolding grow
grow-ne-nil c [] e = cc
grow-ne-nil c (p ∷ ps) e = cc

pub split-ne-nil : (s : Bytes) (sep : ℕ) → split s sep ≢ []
unfolding split
split-ne-nil [] sep e = cc
split-ne-nil (c ∷ s) sep e = elim (Bool-cases (c == sep)) [
  | inl same ↦ cons-ne-nil [] (split s sep) (rw same at e)
  | inr other ↦ grow-ne-nil c (split s sep) (rw other at e)
]

pub joined_length-split : (s : Bytes) (sep : ℕ) → joined_length (split s sep) ≡ suc (length s)
unfolding split
joined_length-split [] sep = refl
joined_length-split (c ∷ s) sep =
    ground
      (arith, joined_length-split s sep, grow-joined_length c (split s sep) (split-ne-nil s sep))
