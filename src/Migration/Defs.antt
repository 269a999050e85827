-- ===== src/Migration/Defs.antt =====
-- The runner and its methods. A method takes the runner and the migrator's state, and gives both
-- anew with its result.
use gouterstellar_platform.Base.{
  if◌then◌else◌, Result, ok, err, map_err, ℕ, Bool, true, false, ◌||◌, Option, none, some, List, [],
  ◌∷◌,
}
use gouterstellar_platform.Text.{Bytes, is_empty}

-- What the runner calls of golang-migrate. `up` fails with `none` for
-- `migrate.ErrNoChange`, and
-- closing gives the source's error and the database's.
pub record Migrator (S E : Type 0) : Type 0 where
  pub up : S → Result (Option E) (Unit {0}) × S
  pub version : S → Result E (ℕ × Bool) × S
  pub close : S → Option E × Option E × S

pub record Runner : Type 0 where
  pub closed : Bool

pub data Error (E : Type 0) : Type 0 where
  closed_runner : Error E
  apply_migrations : E → Error E
  read_version : E → Error E
  close_errors : List E → Error E

-- What `New` reports.
pub data NewError (E : Type 0) : Type 0 where
  no_filesystem no_path_or_url : NewError E
  open_migrations : E → NewError E
  construct_migrator : E → NewError E

-- What `New` calls of its libraries: `iofs.New` opens a source, which is closed again if no migrator
-- can be made over it. The flag says whether a source is open that no migrator owns.
pub record Opener (F S E : Type 0) : Type 0 where
  pub open_source : F → Bytes → Result E S
  pub new_migrator : S → Bytes → Result E S
  pub close_source : S → S

module _ {F S E : Type 0} (opener : Opener F S E) where
  -- The state of the source is given back where it was opened and `New` failed.
  unfoldable pub new : Option F → Bytes → Bytes → Result (NewError E) (Runner × S) × Option S
  new none path database_url = (err no_filesystem, none)
  new (some files) path database_url =
      if is_empty path || is_empty database_url
      then (err no_path_or_url, none)
      else elim (opener.open_source files path) [
        | err e ↦ (err (open_migrations e), none)
        | ok source ↦ elim (opener.new_migrator source database_url) [
          | err e ↦ (err (construct_migrator e), some (opener.close_source source))
          | ok migrator ↦ (ok (record { closed = false }, migrator), none)
        ]
      ]

-- `errors.Join`: nil when both are nil.
join_errors : {E : Type 0} → Option E → Option E → Result (Error E) (Unit {0})
join_errors none none = ok tt
join_errors (some e) none = err (close_errors (e ∷ []))
join_errors none (some f) = err (close_errors (f ∷ []))
join_errors (some e) (some f) = err (close_errors (e ∷ f ∷ []))

module _ {S E : Type 0} (m : Migrator S E) where
  up_result : Result (Option E) (Unit {0}) → Result (Error E) (Unit {0})
  up_result (ok _) = ok tt
  up_result (err none) = ok tt
  up_result (err (some e)) = err (apply_migrations e)

  unfoldable pub up : Runner × S → Result (Error E) (Unit {0}) × (Runner × S)
  unfolding up_result
  up (r, s) =
      if r.closed
      then (err closed_runner, (r, s))
      else (let (result, s') = m.up s in (up_result result, (r, s')))

  unfoldable pub version : Runner × S → Result (Error E) (ℕ × Bool) × (Runner × S)
  version (r, s) =
      if r.closed
      then (err closed_runner, (r, s))
      else (let (result, s') = m.version s in (map_err read_version result, (r, s')))

  unfoldable pub close : Runner × S → Result (Error E) (Unit {0}) × (Runner × S)
  unfolding join_errors
  close (r, s) =
      if r.closed
      then (ok tt, (r, s))
      else (let (source, database, s') = m.close s in
          (join_errors source database, (record r { closed = true }, s')))
