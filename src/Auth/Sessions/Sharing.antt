-- ===== src/Auth/Sessions/Sharing.antt =====
-- The slices and maps that a `Principal` of auth/session.go holds, on a heap that others write to.
use gouterstellar_platform.Base.{
  ◌==◌, if◌then◌else◌, length, take, drop, ℕ, zero, suc, Bool, false, ◌||◌, List, [], ◌∷◌,
}
use gouterstellar_platform.Text.{Bytes, text_eq}
use gouterstellar_platform.Auth.Sessions.Principals.{SecurityVersion, Principal}

abbrev pub Claims : Type 0
Claims = List (Bytes × Bytes)

-- A slice's array, or a map.
pub data Cell : Type 0 where
  array : List Bytes → Cell
  table : Claims → Cell

-- Addresses from `next` on are free.
pub record Heap : Type 0 where
  pub next : ℕ
  pub cells : ℕ → Cell

pub data Slice : Type 0 where
  nil_slice : Slice
  slice : (address offset count : ℕ) → Slice

pub data MapRef : Type 0 where
  nil_map : MapRef
  map_at : (address : ℕ) → MapRef

unfoldable pub store : Heap → ℕ → Cell → Heap
store h a c = record { next = h.next; cells = λ b. if b == a then c else h.cells b }

unfoldable pub alloc : Heap → Cell → Heap
alloc h c = record { next = suc h.next; cells = λ b. if b == h.next then c else h.cells b }

unfoldable pub array_of : Cell → List Bytes
array_of (array xs) = xs
array_of (table t) = []

unfoldable pub table_of : Cell → Claims
table_of (array xs) = []
table_of (table t) = t

unfoldable pub read_roles : Heap → Slice → List Bytes
read_roles h nil_slice = []
read_roles h (slice a offset count) = take count (drop offset (array_of (h.cells a)))

unfoldable pub read_claims : Heap → MapRef → Claims
read_claims h nil_map = []
read_claims h (map_at a) = table_of (h.cells a)

unfoldable pub set_role : List Bytes → ℕ → Bytes → List Bytes
set_role [] i v = []
set_role (x ∷ xs) zero v = v ∷ xs
set_role (x ∷ xs) (suc i) v = x ∷ set_role xs i v

unfoldable pub has_claim : Claims → Bytes → Bool
has_claim [] name = false
has_claim ((n, v) ∷ t) name = text_eq n name || has_claim t name

unfoldable pub remove_claim : Claims → Bytes → Claims
remove_claim [] name = []
remove_claim ((n, v) ∷ t) name =
    let rest = remove_claim t name in if text_eq n name then rest else (n, v) ∷ rest

unfoldable pub set_claim : Claims → Bytes → Bytes → Claims
set_claim t name value = (name, value) ∷ remove_claim t name

-- `append([]string(nil), roles...)`
unfoldable pub append_to_nil : Heap → List Bytes → Slice × Heap
append_to_nil h [] = (nil_slice, h)
append_to_nil h (role ∷ more) =
    (slice h.next 0 (length (role ∷ more)), alloc h (array (role ∷ more)))

unfoldable pub clone_roles : Heap → Slice → Slice × Heap
clone_roles h roles = append_to_nil h (read_roles h roles)

-- The loop of `cloneClaims`, in one of the orders that `range` may take.
unfoldable pub copy_claims : Claims → Claims
copy_claims [] = []
copy_claims ((name, value) ∷ t) = set_claim (copy_claims t) name value

-- `cloneClaims`, given what the map holds.
unfoldable pub clone_table : Heap → Claims → MapRef × Heap
clone_table h [] = (nil_map, h)
clone_table h (claim ∷ more) = (map_at h.next, alloc h (table (copy_claims (claim ∷ more))))

unfoldable pub clone_claims : Heap → MapRef → MapRef × Heap
clone_claims h claims = clone_table h (read_claims h claims)

pub record HeldPrincipal : Type 0 where
  pub subject : Bytes
  pub security_version : SecurityVersion
  pub roles : Slice
  pub claims : MapRef

unfoldable pub new_principal :
    Heap → Bytes → SecurityVersion → Slice → MapRef → HeldPrincipal × Heap
new_principal h subject security_version roles claims =
    let (own_roles, h') = clone_roles h roles in
    let (own_claims, h'') = clone_claims h' claims in
    (
      record {
        subject = subject;
        security_version = security_version;
        roles = own_roles;
        claims = own_claims;
      },
      h'',
    )

-- The methods `Roles` and `Claims`.
unfoldable pub roles_of : Heap → HeldPrincipal → Slice × Heap
roles_of h p = clone_roles h p.roles

unfoldable pub claims_of : Heap → HeldPrincipal → MapRef × Heap
claims_of h p = clone_claims h p.claims

-- The principal that `withPrincipal` puts into the context.
unfoldable pub with_principal : Heap → HeldPrincipal → HeldPrincipal × Heap
with_principal h p = new_principal h p.subject p.security_version p.roles p.claims

-- A principal as the value that the rest of the package takes it for.
unfoldable pub view : Heap → HeldPrincipal → Principal
view h p = record {
  subject = p.subject;
  security_version = p.security_version;
  roles = read_roles h p.roles;
  claims = read_claims h p.claims;
}
