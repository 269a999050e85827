-- ===== src/Migration/Lifecycle.antt =====
-- What a runner's methods do to the migrator, over any sequence of calls.
use gouterstellar_platform.Base.{
  if◌then◌else◌, ok, err, ℕ, ◌+◌, ◌≡◌, refl, ap, ◌∙◌, ◌↔◌, ◌⊎◌, Bool, true, false, none, List, [],
  ◌∷◌, arith,
}
use gouterstellar_platform.Migration.Defs.{Migrator, Runner, closed_runner, up, version, close}

pub data Call : Type 0 where
  ups versions closes : Call

abbrev pub has_close : List Call → Bool
has_close [] = false
has_close (closes ∷ cs) = true
has_close (_ ∷ cs) = has_close cs

-- How often a sequence of calls may close the migrator.
abbrev pub close_count : List Call → ℕ
close_count cs = if has_close cs then 1 else 0

module _ {S E : Type 0} (m : Migrator S E) where
  abbrev pub step : Runner × S → Call → Runner × S
  step r ups = (up m r).1
  step r versions = (version m r).1
  step r closes = (close m r).1

  abbrev pub run : Runner × S → List Call → Runner × S
  run r [] = r
  run r (c ∷ cs) = run (step r c) cs

  step_closed :
      (s : S) (c : Call) → step (record { closed = true }, s) c ≡ (record { closed = true }, s)
  unfolding up version close
  step_closed s ups = refl
  step_closed s versions = refl
  step_closed s closes = refl

  run_closed :
      (s : S) (cs : List Call)
      → run (record { closed = true }, s) cs ≡ (record { closed = true }, s)
  run_closed s [] = refl
  run_closed s (c ∷ cs) = ap (λ r. run r cs) (step_closed s c) ∙ run_closed s cs

  -- After a close, whatever is called next, the migrator is left alone; then migrating and reading
  -- the version report the closed runner, and closing again succeeds.
  pub closed_refuses :
      (r : Runner) (s : S) (cs : List Call)
      → let (_, after) = close m (r, s) in
        (run after cs ≡ after)
        × (up m (run after cs) ≡ (err closed_runner, after))
        × (version m (run after cs) ≡ (err closed_runner, after))
        × (close m (run after cs) ≡ (ok tt, after))
  unfolding up version close
  closed_refuses r s cs = ground (arith, run_closed s cs, run_closed (m.close s).2 cs)

  -- Migrating succeeds exactly when the runner is open and the migrator succeeds or finds nothing
  -- to change.
  pub up_ok_iff :
      (r : Runner) (s : S)
      → ((up m (r, s)).0 ≡ ok tt)
        ↔ ((r.closed ≡ false) × (((m.up s).0 ≡ ok tt) ⊎ ((m.up s).0 ≡ err none)))
  unfolding up
  up_ok_iff r s = (λ h. ground arith, λ h. ground arith)

  module _ (closings : S → ℕ) (up_keeps : (s : S) → closings (m.up s).1 ≡ closings s)
      (version_keeps : (s : S) → closings (m.version s).1 ≡ closings s)
      (close_counts : (s : S) → closings (m.close s).2 ≡ closings s + 1) where
    -- From an open runner, the migrator is closed once if the runner is closed at all, however
    -- often, and never otherwise; and the runner ends closed just in the first case.
    pub closed_once :
        (s : S) (cs : List Call)
        → let (r, t) = run (record { closed = false }, s) cs in
          (closings t ≡ closings s + close_count cs) × (r.closed ≡ has_close cs)
    unfolding up version close
    closed_once s [] = (omega arith, refl)
    closed_once s (ups ∷ cs) =
        let ih = closed_once (m.up s).1 cs in
        (ih.0 ∙ ap (λ n. n + close_count cs) (up_keeps s), ih.1)
    closed_once s (versions ∷ cs) =
        let ih = closed_once (m.version s).1 cs in
        (ih.0 ∙ ap (λ n. n + close_count cs) (version_keeps s), ih.1)
    closed_once s (closes ∷ cs) = (
      ap (λ r. closings r.1) (run_closed (m.close s).2 cs) ∙ close_counts s,
      ap (λ (r : Runner × S). r.0.closed) (run_closed (m.close s).2 cs),
    )
