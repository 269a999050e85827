-- ===== src/Auth/Sessions/Access.antt =====
-- Who reaches the application through the middleware and the guards.
use gouterstellar_platform.Base.{
  if◌then◌else◌, Bool-cases, Result, ok, err, ◌≡◌, refl, ◌≢◌, inl, inr, not, ◌||◌, Option, some, [],
  arith,
}
use gouterstellar_platform.Text.{Bytes, is_empty, text_eq, text_eq_iff}
use gouterstellar_platform.Text.Fields.{is_empty_iff, is_empty_sound, is_empty-false}
use gouterstellar_platform.Auth.Sessions.Principals.{
  Principal, Resolver, ResolveError, unauthenticated, failure,
}
use gouterstellar_platform.Auth.Sessions.Manager.{
  SessionManager, SessionError, destroy_failed, resolve_failed, mismatched_subject,
  session_subject_key, session_security_version_key,
}
use gouterstellar_platform.Auth.Sessions.Handlers.{
  Response, error_func, Handler, middleware, destroy_then_next, resolved,
}

module _ {S E : Type 0} (m : SessionManager S E) (resolve : Resolver E) where
  abbrev pub subject_of : S → Bytes
  subject_of s = m.get_string s session_subject_key

  abbrev pub version_of : S → Bytes
  version_of s = m.get_string s session_security_version_key

  -- The principal to whom a session belongs at present: the resolver knows the session's subject
  -- under its own name, and its security version is the one in the session.
  pub record IsCurrent (s : S) (p : Principal) : Type 0 where
    pub named : subject_of s ≢ []
    pub versioned : version_of s ≢ []
    pub known : resolve (subject_of s) ≡ ok p
    pub same_subject : p.subject ≡ subject_of s
    pub same_version : p.security_version ≡ version_of s

module _ {S E X W : Type 0} (m : SessionManager S E) (resolve : Resolver E)
    (next : Handler S E X W) where
  -- The owner of a current session is handed to the next handler, in the session as it was.
  pub middleware_admits :
      (ctx : Option Principal) (x : X) (s : S) (p : Principal)
      → IsCurrent m resolve s p
      → middleware m resolve next ctx x s ≡ next (some p) x s
  unfolding middleware resolved
  middleware_admits ctx x s p c = ground (
    arith,
    c.named,
    c.versioned,
    c.known,
    c.same_subject,
    c.same_version,
    is_empty_iff (subject_of m resolve s),
    is_empty_iff (version_of m resolve s),
    is_empty_iff p.subject,
    is_empty_iff p.security_version,
    text_eq_iff p.subject (subject_of m resolve s),
    text_eq_iff p.security_version (version_of m resolve s),
  )

  -- Everyone else is anonymous or refused.
  pub data Outcome (ctx : Option Principal) (x : X) (s : S) (r : Response E W × S) : Type 0 where
    admitted : (p : Principal) → IsCurrent m resolve s p → r ≡ next (some p) x s → Outcome ctx x s r
    anonymous : subject_of m resolve s ≡ [] → r ≡ next ctx x s → Outcome ctx x s r
    destroyed : (t : S) → m.destroy s ≡ (ok tt, t) → r ≡ next ctx x t → Outcome ctx x s r
    refused : (e : SessionError E) → r.0 ≡ error_func e → Outcome ctx x s r

  destroyed-Outcome :
      (ctx : Option Principal) (x : X) (s : S) (d : Result E (Unit {0}) × S)
      → m.destroy s ≡ d
      → Outcome ctx x s (destroy_then_next m resolve next ctx x d)
  unfolding destroy_then_next
  destroyed-Outcome ctx x s (ok tt, t) e = destroyed t e refl
  destroyed-Outcome ctx x s (err f, t) e = refused (destroy_failed f) refl

  resolved-Outcome :
      (ctx : Option Principal) (x : X) (s : S) (r : Result (ResolveError E) Principal)
      → subject_of m resolve s ≢ []
      → version_of m resolve s ≢ []
      → resolve (subject_of m resolve s) ≡ r
      → Outcome ctx x s
          (resolved m resolve next (subject_of m resolve s) (version_of m resolve s) ctx x s r)
  unfolding resolved
  resolved-Outcome ctx x s (err unauthenticated) named versioned e =
      destroyed-Outcome ctx x s (m.destroy s) refl
  resolved-Outcome ctx x s (err (failure f)) named versioned e = refused (resolve_failed f) refl
  resolved-Outcome ctx x s (ok p) named versioned e =
      elim (Bool-cases (is_empty p.subject || not (text_eq p.subject (subject_of m resolve s)))) [
        | inl other ↦ refused mismatched_subject (rw (other, if◌then◌else◌))
        | inr same ↦
            elim (Bool-cases (
              is_empty p.security_version
              || not (text_eq p.security_version (version_of m resolve s)))) [
                | inl stale ↦ rw (same, stale) (destroyed-Outcome ctx x s (m.destroy s) refl)
                | inr fresh ↦
                    admitted p
                      (record {
                        named = named;
                        versioned = versioned;
                        known = e;
                        same_subject =
                            ground (arith, text_eq_iff p.subject (subject_of m resolve s));
                        same_version =
                            ground (arith, text_eq_iff p.security_version (version_of m resolve s));
                      })
                      (rw (same, fresh))
              ]
      ]

  -- A request is handed on with the principal to whom its session belongs at present, or as it
  -- came, if the session has no subject or was destroyed first, or is answered by the error handler.
  pub middleware-Outcome :
      (ctx : Option Principal) (x : X) (s : S) → Outcome ctx x s (middleware m resolve next ctx x s)
  unfolding middleware
  middleware-Outcome ctx x s = elim (Bool-cases (is_empty (subject_of m resolve s))) [
    | inl lacking ↦ rw lacking (anonymous (is_empty_sound _ lacking) refl)
    | inr named ↦ elim (Bool-cases (is_empty (version_of m resolve s))) [
      | inl lacking ↦ rw (named, lacking) (destroyed-Outcome ctx x s (m.destroy s) refl)
      | inr versioned ↦
          rw (named, versioned)
            (resolved-Outcome ctx x s (resolve (subject_of m resolve s)) (is_empty-false _ named)
              (is_empty-false _ versioned) refl)
    ]
  ]
