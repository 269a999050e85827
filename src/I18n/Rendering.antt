-- ===== src/I18n/Rendering.antt =====
-- Compiled rendering against the direct injection of parameters.
use native.Mathlib.Nat.{zero-add, suc-add, add-suc, add-zero}
use gouterstellar_platform.Base.{
  Option-cases, ok, Result-cases, length, take, drop, ℕ, zero, suc, ◌+◌, ◌-◌, ◌≤◌, ◌≡◌, refl, sym,
  ap, subst, ◌∙◌, ◌≢◌, inl, inr, true, false, some, List, [], ◌∷◌, ◌++◌, arith,
}
use gouterstellar_platform.Text.{Bytes}
use gouterstellar_platform.I18n.Placeholders.{match_at, find_all, Match, atoi}
use gouterstellar_platform.I18n.Signature.{has_format}
use gouterstellar_platform.I18n.Message.{
  MessagePlaceholder, CompiledMessage, compile_placeholders, compile_message, Fmt, slice,
  render_from, render, replace, replace_all, inject_params, no_params,
}

drop-suc : {c : ℕ} {s : Bytes} (pos : ℕ) (t : Bytes) → drop pos t ≡ c ∷ s → drop (suc pos) t ≡ s
drop-suc zero [] e = cc
drop-suc zero (a ∷ t) e = ground arith
drop-suc (suc pos) [] e = cc
drop-suc (suc pos) (a ∷ t) e = drop-suc pos t e

drop-nil {ℓ} : {A : Type ℓ} (n : ℕ) → drop {A = A} n [] ≡ []
drop-nil zero = refl
drop-nil (suc n) = refl

drop-add : (pos k : ℕ) (t : Bytes) → drop (pos + k) t ≡ drop k (drop pos t)
drop-add zero k t = rw zero-add
drop-add (suc pos) k [] = drop-nil (suc pos + k) ∙ sym (drop-nil k)
drop-add (suc pos) k (a ∷ t) = rw suc-add (drop-add pos k t)

-- Every match that is found lies behind the position of the search.
abbrev IsBehind : ℕ → List MessagePlaceholder → Type 0
IsBehind pos [] = Unit
IsBehind pos (p ∷ ps) = pos ≤ p.start

IsBehind-mono : (pos : ℕ) (ps : List MessagePlaceholder) → IsBehind (suc pos) ps → IsBehind pos ps
IsBehind-mono pos [] b = tt
IsBehind-mono pos (p ∷ ps) b = omega arith

compile_inv :
    (m : Match) (ms : List Match) (ps : List MessagePlaceholder)
    → compile_placeholders (m ∷ ms) ≡ ok ps
    → (n : ℕ) × (qs : List MessagePlaceholder) × (atoi m.captured ≡ some n)
      × (compile_placeholders ms ≡ ok qs)
      × (record { start = m.start; end = m.end; index = n } ∷ qs ≡ ps)
unfolding compile_placeholders
compile_inv m ms ps h = elim (Option-cases (atoi m.captured)) [
  | inl e ↦ cc (rw (e, compile_placeholders) at h)
  | inr (n, e) ↦ elim (Result-cases (compile_placeholders ms)) [
    | inl (qs, f) ↦ (n, qs, e, f, ground arith)
    | inr (x, f) ↦ cc (rw (e, f, compile_placeholders) at h)
  ]
]

compile_nil : (ps : List MessagePlaceholder) → compile_placeholders [] ≡ ok ps → [] ≡ ps
unfolding compile_placeholders
compile_nil ps h = ground arith

find_all-IsBehind :
    (pos k : ℕ) (s : Bytes) (ps : List MessagePlaceholder)
    → compile_placeholders (find_all pos k s) ≡ ok ps
    → IsBehind pos ps
unfolding find_all
find_all-IsBehind pos k [] ps h = subst (IsBehind pos) (compile_nil ps h) tt
find_all-IsBehind pos (suc k) (c ∷ s) ps h =
    IsBehind-mono pos ps (find_all-IsBehind (suc pos) k s ps h)
find_all-IsBehind pos zero (c ∷ s) ps h = elim (Option-cases (match_at c s)) [
  | inl e ↦ IsBehind-mono pos ps (find_all-IsBehind (suc pos) zero s ps (rw (e, find_all) at h))
  | inr (run, e) ↦
      let (n, qs, _, _, same) = compile_inv _ _ ps (rw (e, find_all) at h) in
      subst (IsBehind pos) same (omega arith)
]

module _ {V : Type 0} (fmt : Fmt V) (params : List V) (t : Bytes) where
  slice_step :
      (pos n c : ℕ) (s : Bytes)
      → drop pos t ≡ c ∷ s
      → suc pos ≤ n
      → slice t pos n ≡ c ∷ slice t (suc pos) n
  slice_step pos n c s e b =
      let d : n - pos ≡ suc (n - suc pos) = omega arith in rw (e, d, drop-suc pos t e)

  -- With a byte before it that belongs to no match, the rest is rendered alike.
  render_step :
      (pos c : ℕ) (s : Bytes) (ps : List MessagePlaceholder)
      → drop pos t ≡ c ∷ s
      → IsBehind (suc pos) ps
      → render_from fmt t params pos ps ≡ c ∷ render_from fmt t params (suc pos) ps
  unfolding render_from
  render_step pos c s [] e b = e ∙ ap (◌∷◌ c) (sym (drop-suc pos t e))
  render_step pos c s (p ∷ ps) e b = rw (slice_step pos p.start c s e b)

  render_match :
      (pos n c : ℕ) (s run : Bytes) (qs : List MessagePlaceholder)
      → drop pos t ≡ c ∷ s
      → atoi run ≡ some n
      → render_from fmt t params (suc pos + suc (length run)) qs
        ≡ replace_all fmt params (suc (length run)) s
      → render_from fmt t params
          (pos + 0)
          (record { start = pos; end = pos + suc (suc (length run)); index = n } ∷ qs)
        ≡ replace fmt params run (take (suc (suc (length run))) (c ∷ s))
          ++ replace_all fmt params (suc (length run)) s
  unfolding render_from replace
  render_match pos n c s run qs e number rest =
      let here : pos - (pos + 0) ≡ 0 = omega arith in
      let whole : pos + suc (suc (length run)) - pos ≡ suc (suc (length run)) = omega arith in
      let next : pos + suc (suc (length run)) ≡ suc pos + suc (length run) = omega arith in
      rw (number, replace, here, whole, e, next, rest)

  -- Rendering by the positions that a search finds is replacing the matches as they come.
  render-replace_all :
      (pos k : ℕ) (s : Bytes) (ps : List MessagePlaceholder)
      → drop pos t ≡ s
      → compile_placeholders (find_all pos k s) ≡ ok ps
      → render_from fmt t params (pos + k) ps ≡ replace_all fmt params k s
  unfolding find_all replace_all
  render-replace_all pos k [] ps e h =
      subst (λ qs. render_from fmt t params (pos + k) qs ≡ []) (compile_nil ps h)
        (unfold render_from in (drop-add pos k t ∙ ap (drop k) e ∙ drop-nil k))
  render-replace_all pos (suc k) (c ∷ s) ps e h =
      rw add-suc (rw suc-add at (render-replace_all (suc pos) k s ps (drop-suc pos t e) h))
  render-replace_all pos zero (c ∷ s) ps e h = elim (Option-cases (match_at c s)) [
    | inl missing ↦
        let h' : compile_placeholders (find_all (suc pos) zero s) ≡ ok ps =
          rw (missing, find_all) at h in
        rw (missing, replace_all, add-zero)
          (render_step pos c s ps e (find_all-IsBehind (suc pos) zero s ps h')
            ∙ ap (◌∷◌ c)
                (rw add-zero at (render-replace_all (suc pos) zero s ps (drop-suc pos t e) h')))
    | inr (run, found) ↦
        let (n, qs, number, h', same) = compile_inv _ _ ps (rw (found, find_all) at h) in
        rw (found, replace_all)
          (subst
            (λ rs.
              render_from fmt t params (pos + 0) rs
              ≡ replace fmt params run (take (suc (suc (length run))) (c ∷ s))
                ++ replace_all fmt params (suc (length run)) s)
            same
            (render_match pos n c s run qs e number
              (render-replace_all (suc pos) (suc (length run)) s qs (drop-suc pos t e) h')))
  ]

module _ {V : Type 0} (fmt : Fmt V) where
  compiled_parts :
      (message : Bytes) (c : CompiledMessage)
      → compile_message message ≡ ok c
      → (c.template ≡ message)
        × (c.formatted ≡ has_format message)
        × (compile_placeholders (find_all 0 0 message) ≡ ok c.placeholders)
  unfolding compile_message
  compiled_parts message c h = ground arith

  body :
      (message : Bytes) (c : CompiledMessage) (params : List V)
      → compile_message message ≡ ok c
      → render_from fmt c.template params 0 c.placeholders ≡ replace_all fmt params 0 message
  body message c params h =
      let (template, _, placeholders) = compiled_parts message c h in
      rw template
        (render-replace_all fmt params message 0 0 message c.placeholders refl placeholders)

  -- Rendering a message that was compiled is injecting the parameters into its text, if the
  -- injected values bring no format verb into a text without one.
  pub render-inject_params :
      (message : Bytes) (c : CompiledMessage) (params : List V)
      → compile_message message ≡ ok c
      → has_format (replace_all fmt params 0 message) ≡ has_format message
      → render fmt c params ≡ inject_params fmt message params
  unfolding render inject_params
  render-inject_params message c params h same =
      let (template, formatted, _) = compiled_parts message c h in
      ground (arith, template, formatted, body message c params h)

  -- Where a value does bring a verb into a message without one, the two differ: injection formats
  -- the rendered text once more with the parameters.
  pub inject_params_formats :
      (message : Bytes) (c : CompiledMessage) (params : List V)
      → compile_message message ≡ ok c
      → params ≢ []
      → has_format message ≡ false
      → has_format (replace_all fmt params 0 message) ≡ true
      → inject_params fmt message params ≡ fmt.sprintf (render fmt c params) params
  unfolding render inject_params no_params
  inject_params_formats message c [] h given plain verbs = absurd (given refl)
  inject_params_formats message c (v ∷ vs) h given plain verbs =
      let (template, formatted, _) = compiled_parts message c h in
      ground (arith, template, formatted, body message c (v ∷ vs) h)
