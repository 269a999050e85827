-- ===== src/Member/Tests.antt =====
-- A store in memory that records its calls, a stand-in for the URL parser, and runs.
use gouterstellar_platform.Base.{
  ok, err, All, ℕ, ◌≡◌, refl, ◌≢◌, ◌↔◌, true, false, Option, some, List, [], ◌∷◌,
}
use gouterstellar_platform.Text.{Bytes, codes, text_eq, contains}
use gouterstellar_platform.Text.Trim.{trim_space}
use gouterstellar_platform.Text.Runes.{rune_count}
use gouterstellar_platform.Member.{
  Store, Service, invalid_input, self_change, approve, set_role, new, add_roles, dispatch,
  change_account, Profile, Link, normalize_profile, trimmed, too_long, bad_link,
}
use gouterstellar_platform.Member.Normal.{IsProfile, normalize_profile_iff}
use gouterstellar_platform.Member.Accounts.{
  Request, Keeps, IsRole, run_requests, self_change_iff, run_requests-Keeps,
}

-- The targets of the calls so far.
abbrev memory : Store (List Bytes) ℕ
memory = record {
  approve_member = λ s target. (ok true, target ∷ s);
  set_member_disabled = λ s target off. (ok off, target ∷ s);
  set_member_role = λ s target role. (err 3, target ∷ s);
}

abbrev service : Service (List Bytes) ℕ
service = record { store = memory; roles = codes "admin" ∷ codes "member" ∷ [] }

abbrev Spared : List Bytes → Type 0
Spared = All (λ target. target ≢ codes "ada")

memory-Keeps : Keeps memory (codes "ada") service.roles Spared
memory-Keeps = record {
  approving = λ s target other p. (other, p);
  disabling = λ s target off other p. (other, p);
  assigning = λ s target role other allowed p. (other, p);
}

abbrev request : Bytes → Bytes → Bytes → Request
request target action role = record { target_id = target; action = action; role = role }

abbrev requests : List Request
requests =
    request (codes "bob") approve []
    ∷ request (codes "ada") set_role (codes "admin")
    ∷ request (codes "bob") set_role (codes "owner")
    ∷ request (codes "cy") set_role (codes "admin")
    ∷ request (codes "bob") (codes "delete") []
    ∷ []

history_run : run_requests service (codes "ada") [] requests ≡ codes "cy" ∷ codes "bob" ∷ []
unfolding change_account dispatch text_eq contains
history_run = refl

run_requests-Keeps_example : Spared (run_requests service (codes "ada") [] requests)
run_requests-Keeps_example = run_requests-Keeps service (codes "ada") memory-Keeps [] requests tt

self_change_iff_example :
    ((change_account service [] (codes "ada") (codes "ada") approve []).0 ≡ err self_change)
    ↔ ((codes "ada" ≢ []) × (codes "ada" ≡ codes "ada"))
self_change_iff_example = self_change_iff service [] (codes "ada") (codes "ada") approve []

roles-IsRole : All IsRole (codes "admin" ∷ [])
unfolding trim_space
roles-IsRole = ((cc, refl), tt)

untrimmed_role :
    new {S = List Bytes} {E = ℕ} (some memory) (codes " admin" ∷ []) ≡ err invalid_input
unfolding new add_roles text_eq trim_space
untrimmed_role = refl

-- Every text parses as an https address of one host.
abbrev parse : Bytes → Option Link
parse s = some (record { scheme = codes "https"; hostname = codes "example.org"; has_user = false })

abbrev profile : Bytes → Profile
profile name = record {
  display_name = name;
  headline = [];
  location = codes "Bern ";
  pronouns = [];
  bio = [];
  website = codes " https://example.org";
  public = true;
  has_avatar = false;
}

abbrev normal : Profile
normal = record (profile (codes "Ada")) {
  location = codes "Bern";
  website = codes "https://example.org";
}

profile_run : normalize_profile parse (profile (codes " Ada\n")) ≡ ok normal
unfolding normalize_profile trimmed too_long bad_link trim_space rune_count text_eq
profile_run = refl

normalize_profile_iff_example :
    (normalize_profile parse (profile (codes " Ada\n")) ≡ ok normal)
    ↔ ((normal ≡ trimmed (profile (codes " Ada\n"))) × IsProfile parse normal)
normalize_profile_iff_example = normalize_profile_iff parse (profile (codes " Ada\n")) normal
