-- ===== src/I18n/Placeholders.antt =====
-- The regular expression `\{(\d+)\}` with its matches, and `strconv.Atoi` on what it captures.
use gouterstellar_platform.Base.{
  ltb, leb, ◌==◌, if◌then◌else◌, length, drop, ℕ, zero, suc, ◌+◌, ◌-◌, ◌*◌, ◌^◌, ◌≡◌, refl, Bool,
  false, ◌&&◌, Option, none, some, List, [], ◌∷◌,
}
use gouterstellar_platform.Text.{Bytes, codes}

unfoldable pub is_digit : ℕ → Bool
is_digit c = leb b'0' c && leb c b'9'

-- The longest run of digits at the front.
unfoldable pub digits : Bytes → Bytes
unfolding is_digit
digits [] = []
digits (c ∷ s) = let rest = digits s in if is_digit c then c ∷ rest else []

abbrev starts_with : ℕ → Bytes → Bool
starts_with b [] = false
starts_with b (c ∷ s) = c == b

-- The captured digits of a match at the front of `c ∷ s`.
unfoldable pub match_at : ℕ → Bytes → Option Bytes
match_at c s =
    let run = digits s in
    if c == b'{' && ltb 0 (length run) && starts_with b'}' (drop (length run) s)
    then some run
    else none

pub record Match : Type 0 where
  pub start : ℕ
  pub end : ℕ
  pub captured : Bytes

-- `FindAllStringSubmatchIndex`, from a position on. The second number counts the bytes of the last
-- match that are still to be passed over.
unfoldable pub find_all : ℕ → ℕ → Bytes → List Match
find_all pos k [] = []
find_all pos (suc k) (c ∷ s) = find_all (suc pos) k s
find_all pos zero (c ∷ s) = elim (match_at c s) [
  | none ↦ find_all (suc pos) zero s
  | some run ↦
      record { start = pos; end = pos + suc (suc (length run)); captured = run }
      ∷ find_all (suc pos) (suc (length run)) s
]

abbrev pub max_int : ℕ
max_int = 2 ^ 63 - 1

-- The number that digits spell behind `n`.
unfoldable pub value : ℕ → Bytes → ℕ
value n [] = n
value n (c ∷ s) = value (n * 10 + (c - b'0')) s

-- `strconv.Atoi` on a run of digits: an error only where the number is out of range.
unfoldable pub atoi : Bytes → Option ℕ
unfolding value
atoi s = let n = value 0 s in if ltb max_int n then none else some n

found : find_all 0 0 (codes "{0}{x}{12") ≡ record { start = 0; end = 3; captured = codes "0" } ∷ []
unfolding find_all match_at digits
found = refl
