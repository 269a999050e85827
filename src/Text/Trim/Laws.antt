-- ===== src/Text/Trim/Laws.antt =====
-- What `strings.TrimSpace` leaves: a part of the text with no space at either end.
use gouterstellar_platform.Base.{
  ℕ, zero, suc, ◌≡◌, refl, sym, ap, ◌∙◌, [], ◌∷◌, ◌++◌, reverse, reverse-append, reverse-reverse,
  arith, inl, inr, ◌⊎◌, length, ◌≤◌, length-append,
}
use gouterstellar_platform.Text.Defs.{Bytes}
use gouterstellar_platform.Text.Trim.{
  front_space, back_space, strip, trim_left, trim_right, trim_space,
}

ℕ-cases : (n : ℕ) → (n ≡ 0) ⊎ ((m : ℕ) × (n ≡ suc m))
ℕ-cases zero = inl refl
ℕ-cases (suc m) = inr (m, refl)

module _ (width : Bytes → ℕ) where
  strip_done : (k : ℕ) (s : Bytes) → width [] ≡ 0 → width (strip width k s) ≡ 0
  unfolding strip
  strip_done zero [] e = e
  strip_done (suc k) [] e = e
  strip_done (suc k) (a ∷ s) e = strip_done k s e
  strip_done zero (a ∷ s) e = elim (ℕ-cases (width (a ∷ s))) [
    | inl w ↦ rw (w, strip) w
    | inr (k, w) ↦ rw (w, strip) (strip_done k s e)
  ]

  strip_id : (s : Bytes) → width s ≡ 0 → strip width 0 s ≡ s
  unfolding strip
  strip_id [] e = refl
  strip_id (a ∷ s) e = rw (e, strip) refl

  strip_suffix : (k : ℕ) (s : Bytes) → (pre : Bytes) × (s ≡ pre ++ strip width k s)
  unfolding strip
  strip_suffix zero [] = ([], refl)
  strip_suffix (suc k) [] = ([], refl)
  strip_suffix (suc k) (a ∷ s) = let (pre, e) = strip_suffix k s in (a ∷ pre, ap (◌∷◌ a) e)
  strip_suffix zero (a ∷ s) = elim (ℕ-cases (width (a ∷ s))) [
    | inl w ↦ ([], rw (w, strip) refl)
    | inr (k, w) ↦ let (pre, e) = strip_suffix k s in (a ∷ pre, rw (w, strip) (ap (◌∷◌ a) e))
  ]

-- Cutting bytes off the end makes no space at the front.
front_space_prefix : (xs ys : Bytes) → front_space (xs ++ ys) ≡ 0 → front_space xs ≡ 0
unfolding front_space
front_space_prefix [] ys h = refl
front_space_prefix (a ∷ []) [] h = h
front_space_prefix (a ∷ []) (_ ∷ []) h = ground arith
front_space_prefix (a ∷ []) (_ ∷ _ ∷ _) h = ground arith
front_space_prefix (a ∷ b ∷ []) [] h = h
front_space_prefix (a ∷ b ∷ []) (_ ∷ _) h = ground arith
front_space_prefix (a ∷ b ∷ c ∷ xs) ys h = h

trim_right_prefix : (s : Bytes) → (post : Bytes) × (s ≡ trim_right s ++ post)
unfolding trim_right
trim_right_prefix s =
    let (pre, e) = strip_suffix back_space 0 (reverse s) in
    (reverse pre, sym (reverse-reverse s) ∙ ap reverse e ∙ reverse-append pre _)

trim_right_id : (s : Bytes) → trim_right (trim_right s) ≡ trim_right s
unfolding trim_right
trim_right_id s = rw reverse-reverse (
    ap reverse (
      strip_id back_space (strip back_space 0 (reverse s))
        (strip_done back_space 0 (reverse s) (unfold back_space in refl))))

trim_left_done : (s : Bytes) → front_space (trim_left s) ≡ 0
unfolding trim_left
trim_left_done s = strip_done front_space 0 s (unfold front_space in refl)

-- No space stands at the front or at the end of the result.
pub trim_space_ends :
    (s : Bytes) → (front_space (trim_space s) ≡ 0) × (back_space (reverse (trim_space s)) ≡ 0)
unfolding trim_space
trim_space_ends s = (front, back)
  where
    front : front_space (trim_right (trim_left s)) ≡ 0
    front =
        let (post, e) = trim_right_prefix (trim_left s) in
        front_space_prefix (trim_right (trim_left s)) post (rw (← e) (trim_left_done s))

    back : back_space (reverse (trim_right (trim_left s))) ≡ 0
    back =
        unfold trim_right in
        rw reverse-reverse
          (strip_done back_space 0 (reverse (trim_left s)) (unfold back_space in refl))

-- Trimming twice is trimming once.
pub trim_space_idem : (s : Bytes) → trim_space (trim_space s) ≡ trim_space s
unfolding trim_space
trim_space_idem s = ap trim_right left_id ∙ trim_right_id (trim_left s)
  where
    left_id : trim_left (trim_right (trim_left s)) ≡ trim_right (trim_left s)
    left_id =
        unfold trim_left in strip_id front_space _ (unfold trim_space in (trim_space_ends s).0)

-- The result is a part of the text.
pub trim_space_part : (s : Bytes) → (pre post : Bytes) × (s ≡ pre ++ (trim_space s ++ post))
unfolding trim_space trim_left
trim_space_part s =
    let (pre, e) = strip_suffix front_space 0 s in
    let (post, f) = trim_right_prefix (trim_left s) in (pre, post, e ∙ ap (◌++◌ pre) f)

pub trim_space-le : (s : Bytes) → length (trim_space s) ≤ length s
trim_space-le s =
    let (pre, post, e) = trim_space_part s in
    omega (
      arith,
      ap length e,
      length-append pre (trim_space s ++ post),
      length-append (trim_space s) post,
    )
