-- ===== src/Text/Fields.antt =====
-- What the workflow packages ask of an editable field: not empty, trimmed, and bounded in runes.
use gouterstellar_platform.Base.{
  ltb, ℕ, ◌≤◌, ◌≡◌, refl, ap, ◌≢◌, ◌↔◌, Bool, true, false, ◌||◌, [], ◌∷◌, arith,
}
use gouterstellar_platform.Text.Defs.{Bytes, is_empty}
use gouterstellar_platform.Text.Trim.{trim_space}
use gouterstellar_platform.Text.Trim.Laws.{trim_space_idem}
use gouterstellar_platform.Text.Runes.{rune_count}

-- `s == "" || utf8.RuneCountInString(s) > bound`.
abbrev pub bad_field : ℕ → Bytes → Bool
bad_field bound s = is_empty s || ltb bound (rune_count s)

abbrev pub IsField : ℕ → Bytes → Type 0
IsField bound s = (s ≢ []) × (trim_space s ≡ s) × (rune_count s ≤ bound)

pub is_empty_sound : (s : Bytes) → is_empty s ≡ true → s ≡ []
is_empty_sound [] h = refl
is_empty_sound (_ ∷ _) h = cc

pub is_empty-false : (s : Bytes) → is_empty s ≡ false → s ≢ []
is_empty-false s h e = cc (ap is_empty e, h)

pub is_empty_ne : (s : Bytes) → s ≢ [] → is_empty s ≡ false
is_empty_ne [] h = absurd (h refl)
is_empty_ne (_ ∷ _) h = refl

pub is_empty_iff : (s : Bytes) → (is_empty s ≡ true) ↔ (s ≡ [])
is_empty_iff s = (is_empty_sound s, λ e. ap is_empty e)

pub trim-IsField :
    (bound : ℕ) (s : Bytes) → bad_field bound (trim_space s) ≡ false → IsField bound (trim_space s)
trim-IsField bound s h = ground (arith, is_empty-false (trim_space s), trim_space_idem s)
