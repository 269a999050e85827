-- ===== src/Auth/Sessions/Tests.antt =====
-- A session manager in memory, a user directory, and requests.
use gouterstellar_platform.Base.{
  ◌⊎◌, if◌then◌else◌, Result, ok, err, ℕ, ◌≡◌, refl, ap, ◌≢◌, true, false, not, none, some, List,
  [], ◌∷◌,
}
use gouterstellar_platform.Base.Int.{pos}
use gouterstellar_platform.Text.{Bytes, codes, text_eq, text_ne, contains}
use gouterstellar_platform.Text.Trim.{trim_space}
use gouterstellar_platform.Auth.Sessions.{
  error_func, destroy_failed, SessionIdentity, Principal, Resolver, unauthenticated, has_role,
  SessionManager, IsManager, session_subject_key, session_security_version_key, sign_in, renewed,
  sign_out, Response, page, http_error, Handler, middleware, resolved, require_authenticated,
  principal_from_context, check_role, require_role, SessionConfig, Settings, insecure_none,
  new_sessions, default_lifetime, same_site_lax, same_site_none, subject_required,
}
use gouterstellar_platform.Auth.Sessions.Access.{
  IsCurrent, Outcome, middleware_admits, middleware-Outcome,
}
use gouterstellar_platform.Auth.Sessions.Guards.{guarded}
use gouterstellar_platform.Auth.Sessions.SignedIn.{signed_in_admits, rotated_refuses}
use gouterstellar_platform.Auth.Sessions.Cookies.{IsStrict, new_sessions-IsStrict}

abbrev Session : Type 0
Session = List (Bytes × Bytes)

read : Session → Bytes → Bytes
read [] j = []
read ((k, v) ∷ s) j = if text_eq k j then v else read s j

-- A removed value reads as the empty one.
abbrev memory : SessionManager Session ℕ
memory = record {
  get_string = read;
  put = λ s k v. (k, v) ∷ s;
  remove = λ s k. (k, []) ∷ s;
  renew_token = λ s. (ok tt, s);
  destroy = λ s. (ok tt, []);
}

memory-IsManager : IsManager memory
unfolding read
memory-IsManager = record {
  get-put = λ s k j v. refl;
  get-remove = λ s k j. refl;
  get-destroy = λ s t k e. rw (← ap (λ (r : Result ℕ (Unit {0}) × Session). r.1) e);
}

abbrev ada : Principal
ada = record {
  subject = codes "ada";
  security_version = codes "v1";
  roles = codes "admin" ∷ [];
  claims = [];
}

-- The directory knows one user.
directory : Principal → Resolver ℕ
directory p subject = if text_eq subject (codes "ada") then ok p else err unauthenticated

abbrev identity : SessionIdentity
identity = record { subject = codes "ada"; security_version = codes "v1" }

abbrev session : Session
session = (session_security_version_key, codes "v1") ∷ (session_subject_key, codes "ada") ∷ []

signed_in : sign_in memory [] identity ≡ (ok tt, session)
unfolding sign_in renewed trim_space
signed_in = refl

-- The application answers with the subject's name.
abbrev hello : Handler Session ℕ ℕ Bytes
hello none x s = (page (codes "hello"), s)
hello (some p) x s = (page p.subject, s)

abbrev served : Session → Response ℕ Bytes × Session
served s = middleware memory (directory ada) (require_role (codes "admin") hello) none 0 s

served_admin : (served session).0 ≡ page (codes "ada")
unfolding middleware resolved directory read text_eq require_role require_authenticated
    principal_from_context check_role has_role contains
served_admin = refl

served_nobody : (served []).0 ≡ http_error 401 (codes "authentication required")
unfolding middleware read require_role require_authenticated principal_from_context
served_nobody = refl

abbrev demoted : Principal
demoted = record ada { roles = codes "member" ∷ [] }

served_demoted :
    (middleware memory (directory demoted) (require_role (codes "admin") hello) none 0 session).0
    ≡ http_error 403 (codes "Forbidden")
unfolding middleware resolved directory read text_eq require_role require_authenticated
    principal_from_context check_role has_role contains
served_demoted = refl

blank_subject :
    (sign_in memory [] (record identity { subject = codes " " })).0 ≡ err subject_required
unfolding sign_in trim_space
blank_subject = refl

known : directory ada (codes "ada") ≡ ok ada
unfolding directory text_eq
known = refl

session-IsCurrent : IsCurrent memory (directory ada) session ada
unfolding read text_eq directory
session-IsCurrent = record {
  named = λ e. cc;
  versioned = λ e. cc;
  known = refl;
  same_subject = refl;
  same_version = refl;
}

middleware_admits_example :
    middleware memory (directory ada) hello none 0 session ≡ hello (some ada) 0 session
middleware_admits_example =
    middleware_admits memory (directory ada) hello none 0 session ada session-IsCurrent

middleware-Outcome_example :
    Outcome memory
      (directory ada)
      hello
      none
      0
      session
      (middleware memory (directory ada) hello none 0 session)
middleware-Outcome_example = middleware-Outcome memory (directory ada) hello none 0 session

signed_in_admits_example :
    middleware memory (directory ada) hello none 0 session ≡ hello (some ada) 0 session
signed_in_admits_example =
    signed_in_admits memory memory-IsManager (directory ada) hello none 0 [] session identity ada
      signed_in known refl refl

abbrev rotated : Principal
rotated = record ada { security_version = codes "v2" }

known_rotated : directory rotated (codes "ada") ≡ ok rotated
unfolding directory text_eq
known_rotated = refl

versions_differ : codes "v2" ≢ codes "v1"
unfolding text_eq
versions_differ = text_ne (codes "v2") (codes "v1") refl

rotated_refuses_example :
    ((u : Session) × (memory.destroy session ≡ (ok tt, u))
      × (middleware memory (directory rotated) hello none 0 session ≡ hello none 0 u)
      × (middleware memory (directory rotated) hello none 0 u ≡ hello none 0 u))
    ⊎ ((u : Session) × (e : ℕ) × (memory.destroy session ≡ (err e, u))
        × (middleware memory (directory rotated) hello none 0 session
            ≡ (error_func (destroy_failed e), u)))
rotated_refuses_example =
    rotated_refuses memory memory-IsManager (directory rotated) hello none 0 [] session identity
      rotated signed_in known_rotated refl versions_differ

signed_out : sign_out memory session ≡ (ok tt, [])
unfolding sign_out
signed_out = refl

-- A handler that shows a secret only to administrators, and one that shows it to everybody.
abbrev secret : Handler Session ℕ ℕ Bytes
secret none x s = (page (codes "secret"), s)
secret (some p) x s = (page p.subject, s)

guarded_example :
    middleware memory (directory ada) (require_role (codes "admin") hello) none 0 session
    ≡ middleware memory (directory ada) (require_role (codes "admin") secret) none 0 session
guarded_example =
    guarded memory (directory ada) (codes "admin") hello secret 0 session (λ p c held. refl)

abbrev config : SessionConfig
config = record {
  cookie_name = codes "id";
  same_site = pos 0;
  lifetime = pos 0;
  idle_timeout = pos 1000;
  persist_cookie = false;
  allow_insecure_cookies = false;
}

abbrev settings : Settings
settings = record {
  lifetime = default_lifetime;
  idle_timeout = pos 1000;
  hash_token_in_store = true;
  name = codes "id";
  http_only = true;
  path = codes "/";
  same_site = same_site_lax;
  secure = true;
  persist = false;
}

configured : new_sessions true true config ≡ ok settings
unfolding new_sessions trim_space
configured = refl

new_sessions-IsStrict_example : IsStrict settings × (true ≡ not false)
new_sessions-IsStrict_example = new_sessions-IsStrict true true config settings configured

insecure_none_refused :
    new_sessions true true
      (record config { same_site = same_site_none; allow_insecure_cookies = true })
    ≡ err insecure_none
unfolding new_sessions trim_space
insecure_none_refused = refl
