-- ===== src/Text/Prefix.antt =====
-- `strings.HasPrefix`.
use gouterstellar_platform.Base.{
  ◌==◌, ◌≡◌, refl, ◌≢◌, Bool, true, false, ◌&&◌, [], ◌∷◌, ◌++◌, arith,
}
use gouterstellar_platform.Text.Defs.{Bytes}

unfoldable pub has_prefix : Bytes → Bytes → Bool
has_prefix s [] = true
has_prefix [] (c ∷ p) = false
has_prefix (d ∷ s) (c ∷ p) = d == c && has_prefix s p

pub has_prefix-append : (p s : Bytes) → has_prefix (p ++ s) p ≡ true
unfolding has_prefix
has_prefix-append [] s = refl
has_prefix-append (c ∷ p) s = ground (arith, has_prefix-append p s)

-- A text without the prefix is no continuation of it.
pub ne-append_of_no_prefix : (s p t : Bytes) → has_prefix s p ≡ false → s ≢ p ++ t
ne-append_of_no_prefix s p t h e = cc (has_prefix-append p t, e, h)
