-- ===== src/Group/Workflow.antt =====
-- What reaches the store through the service, over any sequence of calls.
use gouterstellar_platform.Base.{
  err, forward, ◌≡◌, sym, subst, ◌≢◌, ◌⊎◌, inl, inr, List, [], ◌∷◌, arith,
}
use gouterstellar_platform.Text.{Bytes}
use gouterstellar_platform.Text.Trim.{trim_space}
use gouterstellar_platform.Text.Trim.Laws.{trim_space_idem}
use gouterstellar_platform.Text.Fields.{IsField, is_empty_iff}
use gouterstellar_platform.Group.Defs.{
  Store, Service, invalid_input, from_store, create_group, join_group, leave_group,
}

pub data Call : Type 0 where
  creates : Bytes → Bytes → Bytes → Call
  joins leaves : Bytes → Bytes → Call

-- A store that keeps a property of its state as long as it is called with checked arguments.
pub record Keeps {S E : Type 0} (store : Store S E) (P : S → Type 0) : Type 0 where
  pub creating :
      (s : S) (creator name description : Bytes)
      → P s
      → creator ≢ []
      → IsField 100 name
      → IsField 500 description
      → P (store.create_group s creator name description).1
  pub joining :
      (s : S) (group member : Bytes)
      → P s
      → group ≢ []
      → member ≢ []
      → P (store.join_group s group member).1
  pub leaving :
      (s : S) (group member : Bytes)
      → P s
      → group ≢ []
      → member ≢ []
      → P (store.leave_group s group member).1

-- The input that creating a group accepts.
abbrev pub IsGroup : Bytes → Bytes → Bytes → Type 0
IsGroup creator name description =
    (creator ≢ []) × IsField 100 (trim_space name) × IsField 500 (trim_space description)

module _ {S E : Type 0} (service : Service S E) where
  abbrev pub step : S → Call → S
  step s (creates creator name description) = (create_group service s creator name description).1
  step s (joins group member) = (join_group service s group member).1
  step s (leaves group member) = (leave_group service s group member).1

  abbrev pub run_calls : S → List Call → S
  run_calls s [] = s
  run_calls s (c ∷ cs) = run_calls (step s c) cs

  -- Creating a group answers from the store, called with the trimmed texts, if the creator is named
  -- and both texts are fields in their bounds; otherwise it is refused and the store stays as it is.
  pub create_group_lem :
      (s : S) (creator name description : Bytes)
      → (IsGroup creator name description
          × (create_group service s creator name description
              ≡ forward from_store (
                  service.store.create_group s creator (trim_space name) (trim_space description))))
        ⊎ ((¬ IsGroup creator name description)
            × (create_group service s creator name description ≡ (err invalid_input, s)))
  unfolding create_group
  create_group_lem s creator name description = ground (
    arith,
    is_empty_iff creator,
    is_empty_iff (trim_space name),
    is_empty_iff (trim_space description),
    trim_space_idem name,
    trim_space_idem description,
  )

  module _ {P : S → Type 0} (keeps : Keeps service.store P) where
    step-Keeps : (s : S) (c : Call) → P s → P (step s c)
    unfolding join_group leave_group
    step-Keeps s (creates creator name description) p =
        elim (create_group_lem s creator name description) [
          | inl (valid, e) ↦
              subst (λ r. P (r.1)) (sym e) (keeps.creating s creator _ _ p valid.0 valid.1 valid.2)
          | inr (_, e) ↦ subst (λ r. P (r.1)) (sym e) p
        ]
    step-Keeps s (joins group member) p =
        ground (arith, is_empty_iff group, is_empty_iff member, keeps.joining s group member p)
    step-Keeps s (leaves group member) p =
        ground (arith, is_empty_iff group, is_empty_iff member, keeps.leaving s group member p)

    -- A property that the store keeps when it is called with a named creator and trimmed, bounded
    -- texts, and with named groups and members, is kept by any sequence of calls of the service.
    pub run_calls-Keeps : (s : S) (cs : List Call) → P s → P (run_calls s cs)
    run_calls-Keeps s [] p = p
    run_calls-Keeps s (c ∷ cs) p = run_calls-Keeps (step s c) cs (step-Keeps s c p)
