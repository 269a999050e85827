-- ===== src/Auth/Sessions/Handlers.antt =====
-- The middleware and the two guards. A handler takes the principal that the request's context
-- carries, the rest of the request and the session, and answers.
use gouterstellar_platform.Base.{
  [], Bool, true, false, if◌then◌else◌, Result, ok, err, ℕ, not, ◌||◌, Option, none, some,
}
use gouterstellar_platform.Text.{Bytes, codes, is_empty, text_eq}
use gouterstellar_platform.Auth.Sessions.Principals.{
  Principal, Resolver, ResolveError, unauthenticated, failure, has_role,
}
use gouterstellar_platform.Auth.Sessions.Manager.{
  SessionManager, SessionError, mismatched_subject, destroy_failed, resolve_failed,
  session_subject_key, session_security_version_key,
}

-- A response of the application, an `http.Error` of a guard, or a call of the manager's `ErrorFunc`.
pub data Response (E W : Type 0) : Type 0 where
  page : W → Response E W
  http_error : ℕ → Bytes → Response E W
  error_func : SessionError E → Response E W

abbrev pub Handler : Type 0 → Type 0 → Type 0 → Type 0 → Type 0
Handler S E X W = Option Principal → X → S → Response E W × S

module _ {S E X W : Type 0} (m : SessionManager S E) (resolve : Resolver E)
    (next : Handler S E X W) where
  -- `destroyInvalidSession`, and what each of its callers does next.
  unfoldable pub destroy_then_next :
      Option Principal → X → Result E (Unit {0}) × S → Response E W × S
  destroy_then_next ctx x (err e, s) = (error_func (destroy_failed e), s)
  destroy_then_next ctx x (ok _, s) = next ctx x s

  -- What follows the call of the resolver, by its result.
  unfoldable pub resolved :
      Bytes
      → Bytes
      → Option Principal
      → X
      → S
      → Result (ResolveError E) Principal
      → Response E W × S
  resolved subject version ctx x s (err unauthenticated) = destroy_then_next ctx x (m.destroy s)
  resolved subject version ctx x s (err (failure e)) = (error_func (resolve_failed e), s)
  resolved subject version ctx x s (ok p) =
      if is_empty p.subject || not (text_eq p.subject subject)
      then (error_func mismatched_subject, s)
      else if is_empty p.security_version || not (text_eq p.security_version version)
      then destroy_then_next ctx x (m.destroy s)
      else next (some p) x s

  unfoldable pub middleware : Handler S E X W
  middleware ctx x s =
      let subject = m.get_string s session_subject_key in
      let version = m.get_string s session_security_version_key in
      if is_empty subject
      then next ctx x s
      else if is_empty version
      then destroy_then_next ctx x (m.destroy s)
      else resolved subject version ctx x s (resolve subject)

-- The zero value of a principal where the context has none.
unfoldable pub principal_from_context : Option Principal → Principal × Bool
principal_from_context none =
    (record { subject = []; security_version = []; roles = []; claims = [] }, false)
principal_from_context (some p) = (p, true)

module _ {S E X W : Type 0} where
  unfoldable pub require_authenticated : Handler S E X W → Handler S E X W
  require_authenticated next ctx x s =
      let (_, found) = principal_from_context ctx in
      if not found then (http_error 401 (codes "authentication required"), s) else next ctx x s

  -- The inner handler of `RequireRole`.
  unfoldable pub check_role : Bytes → Handler S E X W → Handler S E X W
  check_role role next ctx x s =
      let (principal, _) = principal_from_context ctx in
      if not (has_role principal role)
      then (http_error 403 (codes "Forbidden"), s)
      else next ctx x s

  unfoldable pub require_role : Bytes → Handler S E X W → Handler S E X W
  require_role role next = require_authenticated (check_role role next)
