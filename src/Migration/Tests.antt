-- ===== src/Migration/Tests.antt =====
-- A migrator that counts how often it is closed, and runs.
use gouterstellar_platform.Base.{ok, err, ℕ, ◌+◌, ◌≡◌, refl, true, false, none, some, List, [], ◌∷◌}
use gouterstellar_platform.Text.{codes}
use gouterstellar_platform.Migration.{
  Migrator, Runner, Opener, construct_migrator, no_path_or_url, close_errors, new, up, version,
  close,
}
use gouterstellar_platform.Migration.Lifecycle.{
  Call, ups, versions, closes, run, close_count, has_close, closed_once,
}

-- The schema is current, and the database fails to close.
abbrev counter : Migrator ℕ ℕ
counter = record {
  up = λ s. (err none, s);
  version = λ s. (ok (4, false), s);
  close = λ s. (none, some 5, s + 1);
}

abbrev opened : Runner
opened = record { closed = false }

abbrev calls : List Call
calls = ups ∷ versions ∷ closes ∷ ups ∷ closes ∷ []

history_run : run counter (opened, 0) calls ≡ (record { closed = true }, 1)
unfolding up version close
history_run = refl

close_reports : (close counter (opened, 0)).0 ≡ err (close_errors (5 ∷ []))
unfolding close
close_reports = refl

closed_once_example :
    ((run counter (opened, 0) calls).1 ≡ 0 + close_count calls)
    × ((run counter (opened, 0) calls).0.closed ≡ has_close calls)
closed_once_example = closed_once counter (λ s. s) (λ s. refl) (λ s. refl) (λ s. refl) 0 calls

-- A source counts how often it is closed; no migrator can be made.
abbrev opener : Opener ℕ ℕ ℕ
opener = record {
  open_source = λ files path. ok 0;
  new_migrator = λ source url. err 8;
  close_source = λ source. source + 1;
}

source_released :
    new opener (some 0) (codes "migrations") (codes "postgres:")
    ≡ (err (construct_migrator 8), some 1)
unfolding new
source_released = refl

empty_path : new opener (some 0) [] (codes "postgres:") ≡ (err no_path_or_url, none)
unfolding new
empty_path = refl
