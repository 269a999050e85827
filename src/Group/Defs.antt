-- ===== src/Group/Defs.antt =====
-- The service of group/group.go and its three methods.
use gouterstellar_platform.Base.{
  ltb, if◌then◌else◌, Result, ok, err, forward, ◌||◌, Option, none, some,
}
use gouterstellar_platform.Text.{Bytes, is_empty}
use gouterstellar_platform.Text.Trim.{trim_space}
use gouterstellar_platform.Text.Runes.{rune_count}

-- The interface `Store`: each call gives an answer and the store's new state.
pub record Store (S E : Type 0) : Type 0 where
  pub create_group : S → Bytes → Bytes → Bytes → Result E Bytes × S
  pub join_group : S → Bytes → Bytes → Result E (Unit {0}) × S
  pub leave_group : S → Bytes → Bytes → Result E (Unit {0}) × S

-- `ErrInvalidInput`, or an error that the store returned.
pub data Error (E : Type 0) : Type 0 where
  invalid_input : Error E
  from_store : E → Error E

pub record Service (S E : Type 0) : Type 0 where
  pub store : Store S E

module _ {S E : Type 0} where
  -- `none` is the nil interface.
  unfoldable pub new : Option (Store S E) → Result (Error E) (Service S E)
  new none = err invalid_input
  new (some store) = ok (record { store = store })

  unfoldable pub create_group : Service S E → S → Bytes → Bytes → Bytes → Result (Error E) Bytes × S
  create_group service s creator_id name description =
      let name = trim_space name in
      let description = trim_space description in
      if is_empty creator_id
        || is_empty name
        || is_empty description
        || ltb 100 (rune_count name)
        || ltb 500 (rune_count description)
      then (err invalid_input, s)
      else forward from_store (service.store.create_group s creator_id name description)

  unfoldable pub join_group : Service S E → S → Bytes → Bytes → Result (Error E) (Unit {0}) × S
  join_group service s group_id member_id =
      if is_empty group_id || is_empty member_id
      then (err invalid_input, s)
      else forward from_store (service.store.join_group s group_id member_id)

  unfoldable pub leave_group : Service S E → S → Bytes → Bytes → Result (Error E) (Unit {0}) × S
  leave_group service s group_id member_id =
      if is_empty group_id || is_empty member_id
      then (err invalid_input, s)
      else forward from_store (service.store.leave_group s group_id member_id)
