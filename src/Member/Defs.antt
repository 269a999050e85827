-- ===== src/Member/Defs.antt =====
-- The account service of member/member.go.
use gouterstellar_platform.Base.{
  if◌then◌else◌, Result, ok, err, ◌>>=◌, ◌>>◌, fail_if, forward, Bool, true, false, not, ◌||◌,
  Option, none, some, List, [], ◌∷◌,
}
use gouterstellar_platform.Text.{Bytes, codes, is_empty, text_eq, contains}
use gouterstellar_platform.Text.Trim.{trim_space}

-- The interface `Store`: each call gives whether an account changed, or an error, and the new state.
pub record Store (S E : Type 0) : Type 0 where
  pub approve_member : S → Bytes → Result E Bool × S
  pub set_member_disabled : S → Bytes → Bool → Result E Bool × S
  pub set_member_role : S → Bytes → Bytes → Result E Bool × S

-- `ErrInvalidInput`, `ErrSelfChange`, or an error that the store returned.
pub data Error (E : Type 0) : Type 0 where
  invalid_input self_change : Error E
  from_store : E → Error E

-- `AccountAction` is a string type: any other text is a value of it too.
abbrev pub AccountAction : Type 0
AccountAction = Bytes

abbrev pub approve : AccountAction
approve = codes "approve"

abbrev pub disable : AccountAction
disable = codes "disable"

abbrev pub enable : AccountAction
enable = codes "enable"

abbrev pub set_role : AccountAction
set_role = codes "role"

-- `roles` is a set, kept as the list of what was put in.
pub record Service (S E : Type 0) : Type 0 where
  pub store : Store S E
  pub roles : List Bytes

-- The loop of `New` over the allowed roles.
unfoldable pub add_roles : {E : Type 0} → List Bytes → List Bytes → Result (Error E) (List Bytes)
add_roles [] roles = ok roles
add_roles (role ∷ rest) roles =
    let added = add_roles rest (role ∷ roles) in
    if is_empty role || not (text_eq (trim_space role) role) then err invalid_input else added

-- `len(allowedRoles) == 0`.
unfoldable pub no_roles : List Bytes → Bool
no_roles [] = true
no_roles (_ ∷ _) = false

module _ {S E : Type 0} where
  unfoldable pub new : Option (Store S E) → List Bytes → Result (Error E) (Service S E)
  unfolding no_roles
  new none allowed_roles = err invalid_input
  new (some store) allowed_roles = do
    fail_if (no_roles allowed_roles) invalid_input
    roles ← add_roles allowed_roles []
    ok (record { store = store; roles = roles })

  -- The `switch` of `ChangeAccount`.
  unfoldable pub dispatch :
      Service S E → S → Bytes → AccountAction → Bytes → Result (Error E) Bool × S
  dispatch service s target_id action role =
      if text_eq action approve
      then forward from_store (service.store.approve_member s target_id)
      else if text_eq action disable
      then forward from_store (service.store.set_member_disabled s target_id true)
      else if text_eq action enable
      then forward from_store (service.store.set_member_disabled s target_id false)
      else if text_eq action set_role
      then (if contains service.roles role
          then forward from_store (service.store.set_member_role s target_id role)
          else (err invalid_input, s))
      else (err invalid_input, s)

  unfoldable pub change_account :
      Service S E → S → Bytes → Bytes → AccountAction → Bytes → Result (Error E) Bool × S
  change_account service s actor_id target_id action role =
      if is_empty actor_id || is_empty target_id
      then (err invalid_input, s)
      else if text_eq actor_id target_id
      then (err self_change, s)
      else dispatch service s target_id action role
