-- ===== src/Member/Accounts.antt =====
-- What account changes can do to the store, over any sequence of requests.
use gouterstellar_platform.Base.{
  Result, ok, err, map_err, Result-cases, All, ◌≡◌, refl, ◌≢◌, ◌↔◌, inl, inr, Bool, true, false,
  ◌||◌, some, List, [], ◌∷◌, arith,
}
use mathlib.Core.List.{cons-ne-nil}
use gouterstellar_platform.Text.{Bytes, text_eq_iff, contains}
use gouterstellar_platform.Text.Trim.{trim_space}
use gouterstellar_platform.Text.Fields.{is_empty_iff}
use gouterstellar_platform.Member.Defs.{
  Store, Service, Error, self_change, from_store, AccountAction, add_roles, new, dispatch,
  change_account,
}

-- The arguments of `ChangeAccount` without the actor.
pub record Request : Type 0 where
  pub target_id : Bytes
  pub action : AccountAction
  pub role : Bytes

-- A store that keeps a property of its state when it is called for a target other than `actor`,
-- and to set a role in `roles`.
pub record Keeps {S E : Type 0} (store : Store S E) (actor : Bytes) (roles : List Bytes)
    (P : S → Type 0) : Type 0 where
  pub approving :
      (s : S) (target : Bytes) → target ≢ actor → P s → P (store.approve_member s target).1
  pub disabling :
      (s : S) (target : Bytes) (off : Bool)
      → target ≢ actor
      → P s
      → P (store.set_member_disabled s target off).1
  pub assigning :
      (s : S) (target role : Bytes)
      → target ≢ actor
      → contains roles role ≡ true
      → P s
      → P (store.set_member_role s target role).1

from_store-ne :
    {E : Type 0} (r : Result E Bool) → map_err {F = Error E} from_store r ≢ err self_change
from_store-ne (ok b) e = cc
from_store-ne (err x) e = cc

module _ {S E : Type 0} (service : Service S E) where
  -- An actor's requests, one after another; failed ones are ignored.
  abbrev pub run_requests : Bytes → S → List Request → S
  run_requests actor s [] = s
  run_requests actor s (r ∷ rs) =
      run_requests actor (change_account service s actor r.target_id r.action r.role).1 rs

  dispatch-ne :
      (s : S) (target : Bytes) (action : AccountAction) (role : Bytes)
      → (dispatch service s target action role).0 ≢ err self_change
  unfolding dispatch
  dispatch-ne s target action role e = ground (
    arith,
    from_store-ne (service.store.approve_member s target).0,
    from_store-ne (service.store.set_member_disabled s target true).0,
    from_store-ne (service.store.set_member_disabled s target false).0,
    from_store-ne (service.store.set_member_role s target role).0,
  )

  -- A change of one's own account is refused with the error for it, and only such a change is.
  pub self_change_iff :
      (s : S) (actor target : Bytes) (action : AccountAction) (role : Bytes)
      → ((change_account service s actor target action role).0 ≡ err self_change)
        ↔ ((actor ≢ []) × (target ≡ actor))
  unfolding change_account
  self_change_iff s actor target action role = (forth, back)
    where
      forth :
          (change_account service s actor target action role).0 ≡ err self_change
          → (actor ≢ []) × (target ≡ actor)
      forth h =
          ground
            (arith, is_empty_iff actor, text_eq_iff actor target, dispatch-ne s target action role)

      back :
          (actor ≢ []) × (target ≡ actor)
          → (change_account service s actor target action role).0 ≡ err self_change
      back h = ground (arith, is_empty_iff actor, is_empty_iff target, text_eq_iff actor target)

  module _ {P : S → Type 0} (actor : Bytes)
      (keeps : Keeps service.store actor service.roles P) where
    change_account-Keeps :
        (s : S) (r : Request)
        → P s
        → P (change_account service s actor r.target_id r.action r.role).1
    unfolding change_account dispatch
    change_account-Keeps s r p = ground (
      arith,
      text_eq_iff actor r.target_id,
      keeps.approving s r.target_id,
      keeps.disabling s r.target_id true,
      keeps.disabling s r.target_id false,
      keeps.assigning s r.target_id r.role,
    )

    -- Whatever requests one actor makes, a property of the store is kept if the store keeps it when
    -- called for another account than the actor's and with an allowed role only.
    pub run_requests-Keeps : (s : S) (rs : List Request) → P s → P (run_requests actor s rs)
    run_requests-Keeps s [] p = p
    run_requests-Keeps s (r ∷ rs) p =
        run_requests-Keeps (change_account service s actor r.target_id r.action r.role).1 rs
          (change_account-Keeps s r p)

-- A role as `New` accepts it: not empty and trimmed.
abbrev pub IsRole : Bytes → Type 0
IsRole role = (role ≢ []) × (trim_space role ≡ role)

module _ {E : Type 0} where
  add_roles_step :
      (role : Bytes) (rest roles result : List Bytes)
      → add_roles {E = E} (role ∷ rest) roles ≡ ok result
      → IsRole role × (add_roles {E = E} rest (role ∷ roles) ≡ ok result)
  unfolding add_roles
  add_roles_step role rest roles result h =
      ground (arith, is_empty_iff role, text_eq_iff (trim_space role) role)

  add_roles_sound :
      (allowed roles result : List Bytes)
      → add_roles {E = E} allowed roles ≡ ok result
      → All IsRole allowed
        × ((role : Bytes) → contains result role ≡ (contains allowed role || contains roles role))
  unfolding contains
  add_roles_sound [] roles result h = (tt, λ role. unfold add_roles in ground arith)
  add_roles_sound (r ∷ rest) roles result h =
      let (valid, more) = add_roles_step r rest roles result h in
      let (all_valid, same) = add_roles_sound rest (r ∷ roles) result more in
      ((valid, all_valid), λ role. ground (arith, same role))

  add_roles_complete :
      (allowed roles : List Bytes)
      → All IsRole allowed
      → (result : List Bytes) × (add_roles {E = E} allowed roles ≡ ok result)
  unfolding add_roles
  add_roles_complete [] roles v = (roles, refl)
  add_roles_complete (r ∷ rest) roles (v, vs) =
      let (result, e) = add_roles_complete rest (r ∷ roles) vs in
      (result, ground (arith, is_empty_iff r, text_eq_iff (trim_space r) r))

module _ {S E : Type 0} (store : Store S E) where
  -- A service that is made was given a role, only trimmed and not empty ones, and allows a role
  -- exactly when it was given.
  pub new_sound :
      (allowed : List Bytes) (role : Bytes) (service : Service S E)
      → new (some store) allowed ≡ ok service
      → (allowed ≢ [])
        × All IsRole allowed
        × (service.store ≡ store)
        × (contains service.roles role ≡ contains allowed role)
  unfolding new
  new_sound [] role service h = cc
  new_sound (r ∷ rest) role service h = elim (Result-cases (add_roles {E = E} (r ∷ rest) [])) [
    | inl (roles, e) ↦
        let (valid, same) = add_roles_sound (r ∷ rest) [] roles e in
        (cons-ne-nil r rest, valid, ground arith, unfold contains in ground (arith, same role))
    | inr (x, e) ↦ cc
  ]

  -- Roles that are trimmed and not empty are accepted, if there is one.
  pub new_complete :
      (allowed : List Bytes)
      → allowed ≢ []
      → All IsRole allowed
      → (service : Service S E) × (new (some store) allowed ≡ ok service)
  unfolding new
  new_complete [] h v = absurd (h refl)
  new_complete (r ∷ rest) h v =
      let (roles, e) = add_roles_complete {E = E} (r ∷ rest) [] v in
      (record { store = store; roles = roles }, rw e)
