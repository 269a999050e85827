-- ===== src/Auth/Sessions/SignedIn.antt =====
-- What a sign-in, a rotation of the security version and a sign-out mean for later requests.
use gouterstellar_platform.Base.{
  ◌⊎◌, inl, inr, Result, ok, err, ◌≡◌, refl, sym, ap, ◌∙◌, ◌≢◌, false, Option, some, [], arith,
}
use gouterstellar_platform.Text.{Bytes, text_eq, text_eq_iff, text_eq_refl}
use gouterstellar_platform.Text.Trim.{trim_space}
use gouterstellar_platform.Text.Fields.{is_empty_iff}
use gouterstellar_platform.Auth.Sessions.Principals.{Principal, Resolver, SessionIdentity}
use gouterstellar_platform.Auth.Sessions.Manager.{
  destroy_failed, SessionManager, IsManager, session_subject_key, session_security_version_key,
  sign_in, renewed, sign_out, put_value, remove_value,
}
use gouterstellar_platform.Auth.Sessions.Handlers.{
  error_func, Handler, middleware, resolved, destroy_then_next,
}
use gouterstellar_platform.Auth.Sessions.Access.{
  IsCurrent, subject_of, version_of, middleware_admits,
}

keys_differ : text_eq session_security_version_key session_subject_key ≡ false
unfolding text_eq
keys_differ = refl

trim_space-nil : (s : Bytes) → s ≡ [] → trim_space s ≡ []
unfolding trim_space
trim_space-nil s e = rw e refl

destroyed_or_not :
    {S E : Type 0} (q : Result E (Unit {0}) × S)
    → ((u : S) × (q ≡ (ok tt, u))) ⊎ ((u : S) × (e : E) × (q ≡ (err e, u)))
destroyed_or_not (ok tt, u) = inl (u, refl)
destroyed_or_not (err e, u) = inr (u, e, refl)

module _ {S E : Type 0} (m : SessionManager S E) (lawful : IsManager m) where
  renewed_writes :
      (t : S) (identity : SessionIdentity) (r : Result E (Unit {0}) × S)
      → renewed m identity r ≡ (ok tt, t)
      → (m.get_string t session_subject_key ≡ identity.subject)
        × (m.get_string t session_security_version_key ≡ identity.security_version)
  unfolding renewed
  renewed_writes t identity (err e, s) h = cc
  renewed_writes t identity (ok _, s) h =
      let u = m.put s session_subject_key identity.subject in
      let k = session_security_version_key in
      let v = identity.security_version in
      ground (
        arith,
        lawful.get-put u k session_subject_key v,
        lawful.get-put u k k v,
        lawful.get-put s session_subject_key session_subject_key identity.subject,
        keys_differ,
        text_eq_refl session_subject_key,
        text_eq_refl k,
      )

  -- A sign-in that succeeds had a subject and a version, and both are in the session.
  sign_in_writes :
      (s t : S) (identity : SessionIdentity)
      → sign_in m s identity ≡ (ok tt, t)
      → (identity.subject ≢ [])
        × (identity.security_version ≢ [])
        × (m.get_string t session_subject_key ≡ identity.subject)
        × (m.get_string t session_security_version_key ≡ identity.security_version)
  unfolding sign_in
  sign_in_writes s t identity h = ground (
    arith,
    is_empty_iff (trim_space identity.subject),
    trim_space-nil identity.subject,
    is_empty_iff identity.security_version,
    renewed_writes t identity (m.renew_token s),
  )

  destroyed_by : (s t : S) → sign_out m s ≡ (ok tt, t) → m.destroy s ≡ (ok tt, t)
  unfolding sign_out
  destroyed_by s t h = ground arith

  module _ (resolve : Resolver E) where
    signed_in-IsCurrent :
        (s t : S) (identity : SessionIdentity) (p : Principal)
        → sign_in m s identity ≡ (ok tt, t)
        → resolve identity.subject ≡ ok p
        → p.subject ≡ identity.subject
        → p.security_version ≡ identity.security_version
        → IsCurrent m resolve t p
    signed_in-IsCurrent s t identity p h known same_subject same_version =
        let (named, versioned, subject, version) = sign_in_writes s t identity h in
        record {
          named = λ e. named (sym subject ∙ e);
          versioned = λ e. versioned (sym version ∙ e);
          known = ap resolve subject ∙ known;
          same_subject = same_subject ∙ sym subject;
          same_version = same_version ∙ sym version;
        }

    module _ {X W : Type 0} (next : Handler S E X W) (ctx : Option Principal) (x : X) where
      -- After a sign-in, a request in that session reaches the next handler as the signed-in
      -- principal, as long as the resolver reports the version that was signed in with.
      pub signed_in_admits :
          (s t : S) (identity : SessionIdentity) (p : Principal)
          → sign_in m s identity ≡ (ok tt, t)
          → resolve identity.subject ≡ ok p
          → p.subject ≡ identity.subject
          → p.security_version ≡ identity.security_version
          → middleware m resolve next ctx x t ≡ next (some p) x t
      signed_in_admits s t identity p h known same_subject same_version =
          middleware_admits m resolve next ctx x t p
            (signed_in-IsCurrent s t identity p h known same_subject same_version)

      empty_anonymous :
          (t : S)
          → m.get_string t session_subject_key ≡ []
          → middleware m resolve next ctx x t ≡ next ctx x t
      unfolding middleware
      empty_anonymous t e = rw e

      destroyed_goes_on : (u : S) → destroy_then_next m resolve next ctx x (ok tt, u) ≡ next ctx x u
      unfolding destroy_then_next
      destroyed_goes_on u = refl

      destroyed_fails :
          (e : E) (u : S)
          → destroy_then_next m resolve next ctx x (err e, u) ≡ (error_func (destroy_failed e), u)
      unfolding destroy_then_next
      destroyed_fails e u = refl

      rotated_destroys :
          (s t : S) (identity : SessionIdentity) (p : Principal)
          → sign_in m s identity ≡ (ok tt, t)
          → resolve identity.subject ≡ ok p
          → p.subject ≡ identity.subject
          → p.security_version ≢ identity.security_version
          → middleware m resolve next ctx x t ≡ destroy_then_next m resolve next ctx x (m.destroy t)
      unfolding middleware resolved
      rotated_destroys s t identity p h known same_subject other =
          let (named, versioned, subject, version) = sign_in_writes s t identity h in
          ground (
            arith,
            subject,
            version,
            ap resolve subject,
            is_empty_iff identity.subject,
            is_empty_iff identity.security_version,
            text_eq_iff p.security_version identity.security_version,
            text_eq_iff p.subject identity.subject,
            is_empty_iff p.subject,
          )

      -- After a successful sign-in, once the resolver finds the principal of its subject with another
      -- security version, no request in that session reaches the next handler as the principal. If
      -- the manager destroys the session, the request goes on as it came, and so does every request
      -- after it in what is left of the session; if it fails to, the error handler answers with that
      -- failure, and nothing is handed on.
      pub rotated_refuses :
          (s t : S) (identity : SessionIdentity) (p : Principal)
          → sign_in m s identity ≡ (ok tt, t)
          → resolve identity.subject ≡ ok p
          → p.subject ≡ identity.subject
          → p.security_version ≢ identity.security_version
          → ((u : S) × (m.destroy t ≡ (ok tt, u))
              × (middleware m resolve next ctx x t ≡ next ctx x u)
              × (middleware m resolve next ctx x u ≡ next ctx x u))
            ⊎ ((u : S) × (e : E) × (m.destroy t ≡ (err e, u))
                × (middleware m resolve next ctx x t ≡ (error_func (destroy_failed e), u)))
      rotated_refuses s t identity p h known same_subject other =
          let stale = rotated_destroys s t identity p h known same_subject other in
          elim (destroyed_or_not (m.destroy t)) [
            | inl (u, gone) ↦ inl (
              u,
              gone,
              stale ∙ ap (destroy_then_next m resolve next ctx x) gone ∙ destroyed_goes_on u,
              empty_anonymous u (lawful.get-destroy t u session_subject_key gone),
            )
            | inr (u, e, failed) ↦ inr (
              u,
              e,
              failed,
              stale ∙ ap (destroy_then_next m resolve next ctx x) failed ∙ destroyed_fails e u,
            )
          ]

      -- After a sign-out, requests in what is left of the session are anonymous.
      pub signed_out_anonymous :
          (s t : S) → sign_out m s ≡ (ok tt, t) → middleware m resolve next ctx x t ≡ next ctx x t
      signed_out_anonymous s t h =
          empty_anonymous t (lawful.get-destroy s t session_subject_key (destroyed_by s t h))

    -- Values that the application puts or removes under keys other than the two of the platform
    -- leave the session with its owner.
    pub own_values-IsCurrent :
        (s : S) (p : Principal) (key value : Bytes)
        → key ≢ session_subject_key
        → key ≢ session_security_version_key
        → IsCurrent m resolve s p
        → IsCurrent m resolve (put_value m s key value) p
          × IsCurrent m resolve (remove_value m s key) p
    unfolding put_value remove_value
    own_values-IsCurrent s p key value other_subject other_version c = (
      moved (m.put s key value)
          (ground (
            arith,
            lawful.get-put s key session_subject_key value,
            text_eq_iff key session_subject_key,
          ))
          (ground (
            arith,
            lawful.get-put s key session_security_version_key value,
            text_eq_iff key session_security_version_key,
          )),
      moved (m.remove s key)
          (ground (
            arith,
            lawful.get-remove s key session_subject_key,
            text_eq_iff key session_subject_key,
          ))
          (ground (
            arith,
            lawful.get-remove s key session_security_version_key,
            text_eq_iff key session_security_version_key,
          )),
    )
      where
        moved :
            (t : S)
            → subject_of m resolve t ≡ subject_of m resolve s
            → version_of m resolve t ≡ version_of m resolve s
            → IsCurrent m resolve t p
        moved t e f = record {
          named = λ n. c.named (sym e ∙ n);
          versioned = λ n. c.versioned (sym f ∙ n);
          known = ap resolve e ∙ c.known;
          same_subject = c.same_subject ∙ sym e;
          same_version = c.same_version ∙ sym f;
        }
