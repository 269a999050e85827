-- ===== src/Auth/Sessions/SharingTests.antt =====
-- A caller that keeps the slice and the map it passed to `NewPrincipal`, and writes to them.
use gouterstellar_platform.Base.{
  ltb, ◌==◌, if◌then◌else◌, ℕ, ◌<◌, ◌≡◌, refl, Bool, true, List, [], ◌∷◌, arith,
}
use gouterstellar_platform.Text.{Bytes, codes, text_eq}
use gouterstellar_platform.Auth.Sessions.Sharing.{
  Claims, Cell, array, table, Heap, slice, map_at, alloc, store, array_of, set_role, read_roles,
  read_claims, table_of, has_claim, HeldPrincipal, new_principal, roles_of, view, clone_roles,
  append_to_nil, clone_claims, clone_table,
}
use gouterstellar_platform.Auth.Sessions.Steps.{
  Steps, write_role, read_out_roles, done, more, slice_learned,
}
use gouterstellar_platform.Auth.Sessions.Copies.{view-new_principal, IsTable}

abbrev given_roles : List Bytes
given_roles = codes "admin" ∷ codes "editor" ∷ []

abbrev given_claims : Claims
given_claims = (codes "team", codes "a") ∷ (codes "unit", codes "b") ∷ []

-- The array at 0 and the map at 1, which the caller knows.
cells_at : ℕ → Cell
cells_at a = if a == 0 then array given_roles else table given_claims

abbrev callers_heap : Heap
callers_heap = record { next = 2; cells = cells_at }

callers_known : ℕ → Bool
callers_known a = ltb a 2

known_below : (a : ℕ) → callers_known a ≡ true → a < 2
unfolding callers_known
known_below a h = ground (arith, h)

abbrev built : HeldPrincipal × Heap
built = new_principal callers_heap (codes "ada") (codes "1") (slice 0 0 2) (map_at 1)

-- The caller overwrites its first role, asks for the roles and overwrites the first of those too.
abbrev overwritten : Heap
overwritten = store built.1 0 (array (set_role (array_of (built.1.cells 0)) 0 (codes "guest")))

abbrev asked : Heap × (ℕ → Bool)
asked =
    ((roles_of overwritten built.0).1, slice_learned callers_known (roles_of overwritten built.0).0)

abbrev overwritten_again : Heap
overwritten_again =
    store asked.0 4 (array (set_role (array_of (asked.0.cells 4)) 0 (codes "guest")))

role_learned : asked.1 4 ≡ true
unfolding slice_learned callers_known roles_of new_principal cells_at read_roles read_claims alloc
    clone_roles append_to_nil array_of store clone_claims clone_table table_of
role_learned = refl

writes : Steps (built.1, callers_known) (overwritten_again, asked.1)
unfolding callers_known
writes = more _ _ _ (write_role built.1 callers_known 0 0 (codes "guest") refl) (
    more _ _ _ (read_out_roles overwritten callers_known built.0)
      (more _ _ _ (write_role asked.0 asked.1 4 0 (codes "guest") role_learned) (done _)))

claims_named : IsTable (read_claims callers_heap (map_at 1))
unfolding read_claims cells_at table_of has_claim text_eq
claims_named = (refl, (refl, tt))

view-new_principal_example : view overwritten_again built.0 ≡ record {
  subject = codes "ada";
  security_version = codes "1";
  roles = read_roles callers_heap (slice 0 0 2);
  claims = read_claims callers_heap (map_at 1);
}
view-new_principal_example =
    view-new_principal callers_heap callers_known (codes "ada") (codes "1") (slice 0 0 2) (map_at 1)
      (overwritten_again, asked.1) known_below (omega arith) claims_named writes

roles_shown : read_roles callers_heap (slice 0 0 2) ≡ given_roles
unfolding read_roles cells_at array_of
roles_shown = refl
