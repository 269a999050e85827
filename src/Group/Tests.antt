-- ===== src/Group/Tests.antt =====
-- A store in memory that holds the names of its groups, and runs of the service over it.
use gouterstellar_platform.Base.{ok, err, All, ℕ, ◌≡◌, refl, none, List, [], ◌∷◌}
use gouterstellar_platform.Text.{Bytes, codes}
use gouterstellar_platform.Text.Trim.{trim_space}
use gouterstellar_platform.Text.Runes.{rune_count}
use gouterstellar_platform.Text.Fields.{IsField}
use gouterstellar_platform.Group.{
  Store, Service, invalid_input, from_store, new, create_group, join_group, leave_group,
}
use gouterstellar_platform.Group.Workflow.{
  Call, creates, joins, leaves, Keeps, run_calls, run_calls-Keeps,
}

abbrev memory : Store (List Bytes) ℕ
memory = record {
  create_group = λ s creator name description. (ok name, name ∷ s);
  join_group = λ s group member. (ok tt, s);
  leave_group = λ s group member. (err 7, s);
}

abbrev service : Service (List Bytes) ℕ
service = record { store = memory }

abbrev HasNames : List Bytes → Type 0
HasNames = All (IsField 100)

memory-Keeps : Keeps memory HasNames
memory-Keeps = record {
  creating = λ s creator name description p c n d. (n, p);
  joining = λ s group member p g m. p;
  leaving = λ s group member p g m. p;
}

abbrev calls : List Call
calls =
    creates (codes "ada") (codes "  walkers ") (codes "Sundays")
    ∷ creates (codes "ada") (codes "   ") (codes "no name")
    ∷ joins (codes "g1") []
    ∷ leaves (codes "g1") (codes "ada")
    ∷ []

history_run : run_calls service [] calls ≡ codes "walkers" ∷ []
unfolding create_group join_group leave_group trim_space rune_count
history_run = refl

refused_store_error : (leave_group service [] (codes "g1") (codes "ada")).0 ≡ err (from_store 7)
unfolding leave_group
refused_store_error = refl

nil_store : new {S = ℕ} {E = ℕ} none ≡ err invalid_input
unfolding new
nil_store = refl

run_calls-Keeps_example : HasNames (run_calls service [] calls)
run_calls-Keeps_example = run_calls-Keeps service memory-Keeps [] calls tt
