-- ===== src/Auth/Sessions/Guards.antt =====
-- What a guarded handler can depend on: nothing is handed to it but for a current principal that
-- holds the role.
use gouterstellar_platform.Base.{
  Bool-cases, Result, ok, err, ◌≡◌, refl, ◌≢◌, inl, inr, true, none, some, [], arith,
}
use gouterstellar_platform.Text.{Bytes, is_empty, text_eq_iff}
use gouterstellar_platform.Text.Fields.{is_empty-false}
use gouterstellar_platform.Auth.Sessions.Principals.{
  Principal, Resolver, ResolveError, unauthenticated, failure, has_role,
}
use gouterstellar_platform.Auth.Sessions.Manager.{SessionManager}
use gouterstellar_platform.Auth.Sessions.Handlers.{
  Handler, middleware, require_authenticated, require_role, principal_from_context,
  destroy_then_next, resolved, check_role,
}
use gouterstellar_platform.Auth.Sessions.Access.{IsCurrent, subject_of, version_of}

module _ {S E X W : Type 0} (m : SessionManager S E) (resolve : Resolver E) where
  module _ (g h : Handler S E X W) (x : X) (unnamed : (t : S) → g none x t ≡ h none x t) where
    destroyed-eq :
        (d : Result E (Unit {0}) × S)
        → destroy_then_next m resolve g none x d ≡ destroy_then_next m resolve h none x d
    unfolding destroy_then_next
    destroyed-eq (ok tt, t) = unnamed t
    destroyed-eq (err f, t) = refl

    resolved-eq :
        (s : S) (r : Result (ResolveError E) Principal)
        → ((p : Principal) → IsCurrent m resolve s p → g (some p) x s ≡ h (some p) x s)
        → subject_of m resolve s ≢ []
        → version_of m resolve s ≢ []
        → resolve (subject_of m resolve s) ≡ r
        → resolved m resolve g (subject_of m resolve s) (version_of m resolve s) none x s r
          ≡ resolved m resolve h (subject_of m resolve s) (version_of m resolve s) none x s r
    unfolding resolved
    resolved-eq s (err unauthenticated) same named versioned e = destroyed-eq (m.destroy s)
    resolved-eq s (err (failure f)) same named versioned e = refl
    resolved-eq s (ok p) same named versioned e = ground (
      arith,
      destroyed-eq (m.destroy s),
      text_eq_iff p.subject (subject_of m resolve s),
      text_eq_iff p.security_version (version_of m resolve s),
      current_of named versioned e,
      same p,
    )
      where
        current_of :
            subject_of m resolve s ≢ []
            → version_of m resolve s ≢ []
            → resolve (subject_of m resolve s) ≡ ok p
            → p.subject ≡ subject_of m resolve s
            → p.security_version ≡ version_of m resolve s
            → g (some p) x s ≡ h (some p) x s
        current_of named versioned known same_subject same_version = same p (record {
          named = named;
          versioned = versioned;
          known = known;
          same_subject = same_subject;
          same_version = same_version;
        })

    middleware-eq :
        (s : S)
        → ((p : Principal) → IsCurrent m resolve s p → g (some p) x s ≡ h (some p) x s)
        → middleware m resolve g none x s ≡ middleware m resolve h none x s
    unfolding middleware
    middleware-eq s same = elim (Bool-cases (is_empty (subject_of m resolve s))) [
      | inl lacking ↦ rw lacking (unnamed s)
      | inr named ↦ elim (Bool-cases (is_empty (version_of m resolve s))) [
        | inl lacking ↦ rw (named, lacking) (destroyed-eq (m.destroy s))
        | inr versioned ↦
            rw (named, versioned)
              (resolved-eq s (resolve (subject_of m resolve s)) same (is_empty-false _ named)
                (is_empty-false _ versioned) refl)
      ]
    ]

module _ {S E X W : Type 0} (m : SessionManager S E) (resolve : Resolver E) (role : Bytes) where
  role_only :
      (g h : Handler S E X W) (x : X) (s : S) (p : Principal)
      → (has_role p role ≡ true → g (some p) x s ≡ h (some p) x s)
      → require_role role g (some p) x s ≡ require_role role h (some p) x s
  unfolding require_role require_authenticated check_role principal_from_context
  role_only g h x s p same = elim (Bool-cases (has_role p role)) [
    | inl held ↦ rw held (same held)
    | inr lacking ↦ rw lacking
  ]

  -- Two handlers that answer alike to every principal to whom the session belongs at present and
  -- who holds the role, answer alike to every request behind the middleware and the role guard:
  -- no other request reaches them.
  pub guarded :
      (g h : Handler S E X W) (x : X) (s : S)
      → ((p : Principal)
          → IsCurrent m resolve s p
          → has_role p role ≡ true
          → g (some p) x s ≡ h (some p) x s)
      → middleware m resolve (require_role role g) none x s
        ≡ middleware m resolve (require_role role h) none x s
  guarded g h x s same =
      middleware-eq m resolve (require_role role g) (require_role role h) x
        (λ t. unfold require_role require_authenticated principal_from_context in refl) s
        (λ p c. role_only g h x s p (same p c))
