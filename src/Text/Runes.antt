-- ===== src/Text/Runes.antt =====
-- `utf8.RuneCountInString`: the number of runes, an invalid byte counting as one rune.
use gouterstellar_platform.Base.{
  ℕ, zero, suc, ◌≤◌, ◌≡◌, refl, Bool, false, ◌&&◌, [], ◌∷◌, arith, leb, ◌==◌, if◌then◌else◌, length,
}
use gouterstellar_platform.Text.Defs.{Bytes, codes}

between : ℕ → ℕ → ℕ → Bool
between lo hi c = leb lo c && leb c hi

cont : ℕ → Bool
unfolding between
cont c = between 0x80 0xbf c

-- The second byte of a valid encoding, by its first. The ranges leave out overlong forms,
-- surrogates and code points above U+10FFFF.
second_of_three : ℕ → ℕ → Bool
unfolding between cont
second_of_three a b =
    if a == 0xe0
    then between 0xa0 0xbf b
    else if a == 0xed
    then between 0x80 0x9f b
    else between 0xe1 0xef a && cont b

second_of_four : ℕ → ℕ → Bool
unfolding between cont
second_of_four a b =
    if a == 0xf0
    then between 0x90 0xbf b
    else if a == 0xf4
    then between 0x80 0x8f b
    else between 0xf1 0xf3 a && cont b

is_two : ℕ → Bytes → Bool
unfolding between cont
is_two a [] = false
is_two a (b ∷ _) = between 0xc2 0xdf a && cont b

is_three : ℕ → Bytes → Bool
unfolding cont second_of_three
is_three a (b ∷ c ∷ _) = second_of_three a b && cont c
is_three a _ = false

is_four : ℕ → Bytes → Bool
unfolding cont second_of_four
is_four a (b ∷ c ∷ d ∷ _) = second_of_four a b && cont c && cont d
is_four a _ = false

-- How many bytes behind `a` belong to the rune that `a` begins.
follow : ℕ → Bytes → ℕ
unfolding is_two is_three is_four
follow a rest =
    if is_two a rest then 1 else if is_three a rest then 2 else if is_four a rest then 3 else 0

-- The first argument counts the bytes of the current rune that are still to come.
runes_from : ℕ → Bytes → ℕ
unfolding follow
runes_from k [] = 0
runes_from (suc k) (a ∷ rest) = runes_from k rest
runes_from zero (a ∷ rest) = suc (runes_from (follow a rest) rest)

unfoldable pub rune_count : Bytes → ℕ
unfolding runes_from
rune_count s = runes_from 0 s

runes_from-le : (k : ℕ) (s : Bytes) → runes_from k s ≤ length s
unfolding runes_from
runes_from-le zero [] = omega arith
runes_from-le (suc k) [] = omega arith
runes_from-le zero (a ∷ rest) = omega (arith, runes_from-le (follow a rest) rest)
runes_from-le (suc k) (a ∷ rest) = omega (arith, runes_from-le k rest)

-- A string has at most as many runes as bytes.
pub rune_count-le-length : (s : Bytes) → rune_count s ≤ length s
unfolding rune_count
rune_count-le-length s = runes_from-le 0 s

rune_count_ascii : rune_count (codes "abc") ≡ 3
unfolding rune_count
rune_count_ascii = refl

-- "é", "€", an emoji, and a byte that begins nothing.
rune_count_wide :
    rune_count (0xc3 ∷ 0xa9 ∷ 0xe2 ∷ 0x82 ∷ 0xac ∷ 0xf0 ∷ 0x9f ∷ 0x98 ∷ 0x80 ∷ 0xff ∷ []) ≡ 4
unfolding rune_count
rune_count_wide = refl
