-- ===== src/Text/Trim.antt =====
-- `strings.TrimSpace`: white space as Unicode defines it, in UTF-8, taken off both ends. A space at
-- the end is found by its last bytes, which is what `utf8.DecodeLastRune` does for these runes.
pub mod Laws
use gouterstellar_platform.Base.{
  ℕ, zero, suc, ◌≡◌, refl, Bool, ◌&&◌, ◌||◌, [], ◌∷◌, ◌++◌, reverse, leb, ◌==◌, if◌then◌else◌,
}
use gouterstellar_platform.Text.Defs.{Bytes, codes}

ascii_space : ℕ → Bool
ascii_space a = (leb 9 a && leb a 13) || a == 0x20

-- U+0085, U+00A0.
two_space : ℕ → ℕ → Bool
two_space a b = a == 0xc2 && (b == 0x85 || b == 0xa0)

-- U+1680, U+2000 to U+200A, U+2028, U+2029, U+202F, U+205F, U+3000.
three_space : ℕ → ℕ → ℕ → Bool
three_space a b c =
    (a == 0xe1 && b == 0x9a && c == 0x80)
    || (a == 0xe2
        && b == 0x80
        && ((leb 0x80 c && leb c 0x8a) || c == 0xa8 || c == 0xa9 || c == 0xaf))
    || (a == 0xe2 && b == 0x81 && c == 0x9f)
    || (a == 0xe3 && b == 0x80 && c == 0x80)

-- The number of bytes of the space that a text begins with, 0 if it begins with none.
pub front_space : Bytes → ℕ
unfolding ascii_space two_space three_space
front_space [] = 0
front_space (a ∷ []) = if ascii_space a then 1 else 0
front_space (a ∷ b ∷ []) = if ascii_space a then 1 else if two_space a b then 2 else 0
front_space (a ∷ b ∷ c ∷ _) =
    if ascii_space a then 1 else if two_space a b then 2 else if three_space a b c then 3 else 0

-- The same for the end of a text that is read backwards.
pub back_space : Bytes → ℕ
unfolding ascii_space two_space three_space
back_space [] = 0
back_space (a ∷ []) = if ascii_space a then 1 else 0
back_space (a ∷ b ∷ []) = if ascii_space a then 1 else if two_space b a then 2 else 0
back_space (a ∷ b ∷ c ∷ _) =
    if ascii_space a then 1 else if two_space b a then 2 else if three_space c b a then 3 else 0

-- Spaces are taken off the front as `width` finds them; the number counts bytes of a space that
-- are still to be dropped.
strip : (Bytes → ℕ) → ℕ → Bytes → Bytes
strip width k [] = []
strip width (suc k) (a ∷ s) = strip width k s
strip width zero (a ∷ s) = elim (width (a ∷ s)) [ zero ↦ a ∷ s | suc k ↦ strip width k s ]

trim_left : Bytes → Bytes
unfolding strip front_space
trim_left s = strip front_space 0 s

trim_right : Bytes → Bytes
unfolding strip back_space
trim_right s = reverse (strip back_space 0 (reverse s))

unfoldable pub trim_space : Bytes → Bytes
unfolding trim_left trim_right
trim_space s = trim_right (trim_left s)

both_ends : trim_space (codes " \t a b\n" ++ 0xe2 ∷ 0x80 ∷ 0x8a ∷ 0xc2 ∷ 0xa0 ∷ []) ≡ codes "a b"
unfolding trim_space
both_ends = refl
