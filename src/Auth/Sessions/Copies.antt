-- ===== src/Auth/Sessions/Copies.antt =====
-- A principal's roles and claims are its own, of auth/session.go.
use gouterstellar_platform.Base.{
  ==_iff, Bool-cases, length, take, ℕ, ◌<◌, ◌≡◌, refl, sym, ap, ap₂, subst, ◌∙◌, inl, inr, Bool,
  true, false, List, [], ◌∷◌, arith,
}
use gouterstellar_platform.Text.{Bytes}
use gouterstellar_platform.Auth.Sessions.Principals.{SecurityVersion}
use gouterstellar_platform.Auth.Sessions.Sharing.{
  Claims, Cell, array, table, Heap, Slice, nil_slice, slice, MapRef, nil_map, map_at, alloc,
  array_of, table_of, read_roles, read_claims, has_claim, remove_claim, set_claim, clone_roles,
  copy_claims, clone_claims, new_principal, view,
}
use gouterstellar_platform.Auth.Sessions.Steps.{
  Steps, Holds, RolesCopied, no_roles, new_array, ClaimsCopied, no_claims, new_table,
  clone_roles_lem, clone_claims_lem, Steps-Holds, claims_keep,
}

-- What a slice or a map holds, as long as its address is private.
data RolesHeld (w : Heap × (ℕ → Bool)) (rs : List Bytes) : Slice → Type 0 where
  none_held : rs ≡ [] → RolesHeld w rs nil_slice
  array_held : (a : ℕ) → Holds w a (array rs) → RolesHeld w rs (slice a 0 (length rs))

data ClaimsHeld (w : Heap × (ℕ → Bool)) (t : Claims) : MapRef → Type 0 where
  none_claimed : t ≡ [] → ClaimsHeld w t nil_map
  table_held : (a : ℕ) → Holds w a (table t) → ClaimsHeld w t (map_at a)

take-length : {A : Type 0} (xs : List A) → take (length xs) xs ≡ xs
take-length [] = refl
take-length (x ∷ xs) = ap (λ ys. x ∷ ys) (take-length xs)

RolesHeld-Steps :
    (w v : Heap × (ℕ → Bool)) (rs : List Bytes) (s : Slice)
    → Steps w v
    → RolesHeld w rs s
    → read_roles v.0 s ≡ rs
unfolding read_roles array_of
RolesHeld-Steps w v rs _ r (none_held e) = sym e
RolesHeld-Steps w v rs _ r (array_held a k) =
    rw ((Steps-Holds w v a (array rs) r k).holds, array_of) (take-length rs)

ClaimsHeld-Steps :
    (w v : Heap × (ℕ → Bool)) (t : Claims) (m : MapRef)
    → Steps w v
    → ClaimsHeld w t m
    → read_claims v.0 m ≡ t
unfolding read_claims table_of
ClaimsHeld-Steps w v t _ r (none_claimed e) = sym e
ClaimsHeld-Steps w v t _ r (table_held a k) =
    rw ((Steps-Holds w v a (table t) r k).holds, table_of) refl

-- Whether each name stands in a map once.
abbrev pub IsTable : Claims → Type 0
IsTable [] = Unit {0}
IsTable ((name, value) ∷ t) = (has_claim t name ≡ false) × IsTable t

remove-absent : (t : Claims) (name : Bytes) → has_claim t name ≡ false → remove_claim t name ≡ t
unfolding has_claim remove_claim
remove-absent [] name h = refl
remove-absent ((n, v) ∷ t) name h = ground (arith, h, remove-absent t name)

copy_claims_lem : (t : Claims) → IsTable t → copy_claims t ≡ t
unfolding copy_claims set_claim
copy_claims_lem [] h = refl
copy_claims_lem ((name, value) ∷ t) (absent, h) =
    rw (copy_claims_lem t h, remove-absent t name absent) refl

-- A map that is there already.
abbrev pub IsBelow : Heap → MapRef → Type 0
IsBelow h nil_map = Unit {0}
IsBelow h (map_at a) = a < h.next

RolesCopied-claims :
    (h : Heap) (rs : List Bytes) (q : Slice × Heap) (m : MapRef)
    → RolesCopied h rs q
    → IsBelow h m
    → read_claims q.1 m ≡ read_claims h m
unfolding read_claims alloc
RolesCopied-claims h rs _ nil_map c b = refl
RolesCopied-claims h rs _ (map_at a) (no_roles e) b = refl
RolesCopied-claims h rs _ (map_at a) new_array b = ground (arith, b, ==_iff a h.next)

module _ (h : Heap) (known : ℕ → Bool) (fresh : (a : ℕ) → known a ≡ true → a < h.next) where
  new_Holds : (c : Cell) → Holds (alloc h c, known) h.next c
  unfolding alloc
  new_Holds c = record {
    used = omega arith;
    private = elim (Bool-cases (known h.next)) [
      | inl e ↦ absurd (omega (arith, fresh h.next e))
      | inr e ↦ e
    ];
    holds = ground (arith, ==_iff h.next h.next);
  }

  RolesCopied-RolesHeld :
      (rs : List Bytes) (q : Slice × Heap) → RolesCopied h rs q → RolesHeld (q.1, known) rs q.0
  RolesCopied-RolesHeld rs _ (no_roles e) = none_held e
  RolesCopied-RolesHeld rs _ new_array = array_held h.next (new_Holds (array rs))

  ClaimsCopied-ClaimsHeld :
      (t : Claims) (q : MapRef × Heap)
      → IsTable t
      → ClaimsCopied h t q
      → ClaimsHeld (q.1, known) t q.0
  ClaimsCopied-ClaimsHeld t _ d (no_claims e) = none_claimed e
  ClaimsCopied-ClaimsHeld t _ d new_table =
      rw (copy_claims_lem t d) (table_held h.next (new_Holds (table t)))

  RolesCopied-fresh :
      (rs : List Bytes) (q : Slice × Heap)
      → RolesCopied h rs q
      → (a : ℕ) → known a ≡ true
      → a < q.1.next
  unfolding alloc
  RolesCopied-fresh rs _ (no_roles e) a k = fresh a k
  RolesCopied-fresh rs _ new_array a k = omega (arith, fresh a k)

RolesHeld-claims :
    (h : Heap) (known : ℕ → Bool) (rs : List Bytes) (s : Slice) (t : Claims) (q : MapRef × Heap)
    → ClaimsCopied h t q
    → RolesHeld (h, known) rs s
    → RolesHeld (q.1, known) rs s
RolesHeld-claims h known rs _ t q c (none_held e) = none_held e
RolesHeld-claims h known rs _ t q c (array_held a k) =
    array_held a (claims_keep h known a (array rs) t q c k).0

-- The roles and claims that a new principal shows are those that were passed to `NewPrincipal`,
-- whatever is written afterwards through slices and maps that others know: the caller's own and those
-- that `Roles` and `Claims` gave out. The caller knows only addresses in use, and the map of claims is
-- one, with every name in it once.
pub view-new_principal :
    (h : Heap) (known : ℕ → Bool) (subject : Bytes) (version : SecurityVersion) (roles : Slice)
    (claims : MapRef) (v : Heap × (ℕ → Bool))
    → ((a : ℕ) → known a ≡ true → a < h.next)
    → IsBelow h claims
    → IsTable (read_claims h claims)
    → Steps ((new_principal h subject version roles claims).1, known) v
    → view v.0 (new_principal h subject version roles claims).0 ≡ record {
      subject = subject;
      security_version = version;
      roles = read_roles h roles;
      claims = read_claims h claims;
    }
unfolding view new_principal
view-new_principal h known subject version roles claims v fresh below tabled steps =
    let q = clone_roles h roles in
    let copied = clone_roles_lem h roles in
    let h' = q.1 in
    let same = RolesCopied-claims h _ q claims copied below in
    let t = read_claims h' claims in
    let own_claims = clone_claims_lem h' claims in
    let held =
      RolesHeld-claims h' known _ q.0 t (clone_claims h' claims) own_claims
        (RolesCopied-RolesHeld h known fresh _ q copied) in
    let claimed =
      ClaimsCopied-ClaimsHeld h' known (RolesCopied-fresh h known fresh _ q copied) t
        (clone_claims h' claims) (subst IsTable (sym same) tabled) own_claims in
    ap₂ (λ rs cs. record { subject = subject; security_version = version; roles = rs; claims = cs })
      (RolesHeld-Steps _ v _ _ steps held) (ClaimsHeld-Steps _ v _ _ steps claimed ∙ same)
