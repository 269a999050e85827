-- ===== src/Auth/Sessions/Steps.antt =====
-- What code around a principal of auth/session.go can do to the heap, and what it cannot reach.
use gouterstellar_platform.Base.{
  ◌==◌, ==_iff, length, ℕ, ◌<◌, ◌≡◌, refl, Bool, true, false, ◌||◌, List, [], ◌∷◌, arith,
}
use gouterstellar_platform.Text.{Bytes}
use gouterstellar_platform.Auth.Sessions.Principals.{SecurityVersion}
use gouterstellar_platform.Auth.Sessions.Sharing.{
  Claims, Cell, array, table, Heap, Slice, nil_slice, slice, MapRef, nil_map, map_at, store, alloc,
  array_of, table_of, read_roles, read_claims, set_role, remove_claim, set_claim, clone_roles,
  append_to_nil, clone_table, copy_claims, clone_claims, HeldPrincipal, new_principal, roles_of,
  claims_of, with_principal,
}

unfoldable pub slice_learned : (ℕ → Bool) → Slice → ℕ → Bool
slice_learned known nil_slice b = known b
slice_learned known (slice a o n) b = (b == a) || known b

unfoldable pub map_learned : (ℕ → Bool) → MapRef → ℕ → Bool
map_learned known nil_map b = known b
map_learned known (map_at a) b = (b == a) || known b

-- What code that holds principals can do to a heap, with the addresses it knows: write through the
-- slices and maps it knows, make new ones, and call what the package offers. It does not learn the
-- addresses inside a principal, whose fields are not exported.
pub data Step : Heap × (ℕ → Bool) → Heap × (ℕ → Bool) → Type 0 where
  write_role :
      (h : Heap) (known : ℕ → Bool) (a i : ℕ) (v : Bytes)
      → known a ≡ true
      → Step (h, known) (store h a (array (set_role (array_of (h.cells a)) i v)), known)
  write_claim :
      (h : Heap) (known : ℕ → Bool) (a : ℕ) (name v : Bytes)
      → known a ≡ true
      → Step (h, known) (store h a (table (set_claim (table_of (h.cells a)) name v)), known)
  delete_claim :
      (h : Heap) (known : ℕ → Bool) (a : ℕ) (name : Bytes)
      → known a ≡ true
      → Step (h, known) (store h a (table (remove_claim (table_of (h.cells a)) name)), known)
  make :
      (h : Heap) (known : ℕ → Bool) (c : Cell)
      → Step (h, known) (alloc h c, λ b. (b == h.next) || known b)
  build :
      (h : Heap) (known : ℕ → Bool) (subject : Bytes) (version : SecurityVersion) (roles : Slice)
      (claims : MapRef)
      → Step (h, known) ((new_principal h subject version roles claims).1, known)
  read_out_roles :
      (h : Heap) (known : ℕ → Bool) (p : HeldPrincipal)
      → Step (h, known) ((roles_of h p).1, slice_learned known (roles_of h p).0)
  read_out_claims :
      (h : Heap) (known : ℕ → Bool) (p : HeldPrincipal)
      → Step (h, known) ((claims_of h p).1, map_learned known (claims_of h p).0)
  pass_on :
      (h : Heap) (known : ℕ → Bool) (p : HeldPrincipal)
      → Step (h, known) ((with_principal h p).1, known)

pub data Steps : Heap × (ℕ → Bool) → Heap × (ℕ → Bool) → Type 0 where
  done : (w : Heap × (ℕ → Bool)) → Steps w w
  more : (w v u : Heap × (ℕ → Bool)) → Step w v → Steps v u → Steps w u

-- An address of which others know nothing, and what it holds.
pub record Holds (w : Heap × (ℕ → Bool)) (a : ℕ) (c : Cell) : Type 0 where
  pub used : a < w.0.next
  pub private : w.1 a ≡ false
  pub holds : w.0.cells a ≡ c

store_keeps :
    (h : Heap) (known : ℕ → Bool) (a b : ℕ) (c d : Cell)
    → known b ≡ true
    → Holds (h, known) a c
    → Holds (store h b d, known) a c
unfolding store
store_keeps h known a b c d k h₀ = record {
  used = h₀.used;
  private = h₀.private;
  holds = ground (arith, k, h₀.private, h₀.holds, ==_iff a b);
}

alloc_keeps :
    (h : Heap) (known : ℕ → Bool) (a : ℕ) (c d : Cell)
    → Holds (h, known) a c
    → Holds (alloc h d, known) a c
unfolding alloc
alloc_keeps h known a c d k = record {
  used = omega (arith, k.used);
  private = k.private;
  holds = ground (arith, k.used, k.holds, ==_iff a h.next);
}

-- Learning a new address.
learned_keeps :
    (h : Heap) (known : ℕ → Bool) (a b : ℕ) (c : Cell)
    → a < b
    → Holds (h, known) a c
    → Holds (h, λ x. (x == b) || known x) a c
learned_keeps h known a b c l k = record {
  used = k.used;
  private = ground (arith, l, k.private, ==_iff a b);
  holds = k.holds;
}

-- A copy of roles: none, or a new array with them.
pub data RolesCopied (h : Heap) (rs : List Bytes) : Slice × Heap → Type 0 where
  no_roles : rs ≡ [] → RolesCopied h rs (nil_slice, h)
  new_array : RolesCopied h rs (slice h.next 0 (length rs), alloc h (array rs))

append_to_nil_lem : (h : Heap) (rs : List Bytes) → RolesCopied h rs (append_to_nil h rs)
unfolding append_to_nil
append_to_nil_lem h [] = no_roles refl
append_to_nil_lem h (r ∷ rs) = new_array

pub clone_roles_lem : (h : Heap) (s : Slice) → RolesCopied h (read_roles h s) (clone_roles h s)
unfolding clone_roles
clone_roles_lem h s = append_to_nil_lem h (read_roles h s)

pub data ClaimsCopied (h : Heap) (t : Claims) : MapRef × Heap → Type 0 where
  no_claims : t ≡ [] → ClaimsCopied h t (nil_map, h)
  new_table : ClaimsCopied h t (map_at h.next, alloc h (table (copy_claims t)))

clone_table_lem : (h : Heap) (t : Claims) → ClaimsCopied h t (clone_table h t)
unfolding clone_table
clone_table_lem h [] = no_claims refl
clone_table_lem h (c ∷ t) = new_table

pub clone_claims_lem : (h : Heap) (m : MapRef) → ClaimsCopied h (read_claims h m) (clone_claims h m)
unfolding clone_claims
clone_claims_lem h m = clone_table_lem h (read_claims h m)

pub roles_keep :
    (h : Heap) (known : ℕ → Bool) (a : ℕ) (c : Cell) (rs : List Bytes) (q : Slice × Heap)
    → RolesCopied h rs q
    → Holds (h, known) a c
    → Holds (q.1, known) a c × Holds (q.1, slice_learned known q.0) a c
unfolding slice_learned
roles_keep h known a c rs _ (no_roles e) k = (k, k)
roles_keep h known a c rs _ new_array k =
    let k' = alloc_keeps h known a c (array rs) k in
    (k', learned_keeps (alloc h (array rs)) known a h.next c k.used k')

pub claims_keep :
    (h : Heap) (known : ℕ → Bool) (a : ℕ) (c : Cell) (t : Claims) (q : MapRef × Heap)
    → ClaimsCopied h t q
    → Holds (h, known) a c
    → Holds (q.1, known) a c × Holds (q.1, map_learned known q.0) a c
unfolding map_learned
claims_keep h known a c t _ (no_claims e) k = (k, k)
claims_keep h known a c t _ new_table k =
    let k' = alloc_keeps h known a c (table (copy_claims t)) k in
    (k', learned_keeps (alloc h (table (copy_claims t))) known a h.next c k.used k')

new_principal_keeps :
    (h : Heap) (known : ℕ → Bool) (a : ℕ) (c : Cell) (subject : Bytes) (version : SecurityVersion)
    (roles : Slice) (claims : MapRef)
    → Holds (h, known) a c
    → Holds ((new_principal h subject version roles claims).1, known) a c
unfolding new_principal
new_principal_keeps h known a c subject version roles claims k =
    let h' = (clone_roles h roles).1 in
    let (k', _) = roles_keep h known a c _ (clone_roles h roles) (clone_roles_lem h roles) k in
    (claims_keep h' known a c _ (clone_claims h' claims) (clone_claims_lem h' claims) k').0

-- No step reaches an address that others do not know.
Step-Holds : (w v : Heap × (ℕ → Bool)) (a : ℕ) (c : Cell) → Step w v → Holds w a c → Holds v a c
unfolding roles_of claims_of with_principal
Step-Holds _ _ a c (write_role h known b i v e) k = store_keeps h known a b c _ e k
Step-Holds _ _ a c (write_claim h known b name v e) k = store_keeps h known a b c _ e k
Step-Holds _ _ a c (delete_claim h known b name e) k = store_keeps h known a b c _ e k
Step-Holds _ _ a c (make h known d) k =
    learned_keeps (alloc h d) known a h.next c k.used (alloc_keeps h known a c d k)
Step-Holds _ _ a c (build h known subject version roles claims) k =
    new_principal_keeps h known a c subject version roles claims k
Step-Holds _ _ a c (read_out_roles h known p) k =
    (roles_keep h known a c _ (clone_roles h p.roles) (clone_roles_lem h p.roles) k).1
Step-Holds _ _ a c (read_out_claims h known p) k =
    (claims_keep h known a c _ (clone_claims h p.claims) (clone_claims_lem h p.claims) k).1
Step-Holds _ _ a c (pass_on h known p) k =
    new_principal_keeps h known a c p.subject p.security_version p.roles p.claims k

pub Steps-Holds :
    (w v : Heap × (ℕ → Bool)) (a : ℕ) (c : Cell) → Steps w v → Holds w a c → Holds v a c
Steps-Holds _ _ a c (done w) k = k
Steps-Holds _ _ a c (more w v u s r) k = Steps-Holds v u a c r (Step-Holds w v a c s k)
