-- ===== src/Auth/Sessions/Manager.antt =====
-- The session manager, and the methods of `Sessions` that are calls of it.
use gouterstellar_platform.Base.{if◌then◌else◌, Result, ok, err, forward, ◌≡◌, []}
use gouterstellar_platform.Text.{Bytes, codes, is_empty, text_eq}
use gouterstellar_platform.Text.Trim.{trim_space}
use gouterstellar_platform.Auth.Sessions.Principals.{SessionIdentity}

-- What the code calls of scs, on the session data that the request's context carries.
pub record SessionManager (S E : Type 0) : Type 0 where
  pub get_string : S → Bytes → Bytes
  pub put : S → Bytes → Bytes → S
  pub remove : S → Bytes → S
  pub renew_token : S → Result E (Unit {0}) × S
  pub destroy : S → Result E (Unit {0}) × S

-- What scs documents of these calls.
pub record IsManager {S E : Type 0} (m : SessionManager S E) : Type 0 where
  pub get-put :
      (s : S) (k j v : Bytes)
      → m.get_string (m.put s k v) j ≡ (if text_eq k j then v else m.get_string s j)
  pub get-remove :
      (s : S) (k j : Bytes)
      → m.get_string (m.remove s k) j ≡ (if text_eq k j then [] else m.get_string s j)
  -- Destroying a session clears its data.
  pub get-destroy : (s t : S) (k : Bytes) → m.destroy s ≡ (ok tt, t) → m.get_string t k ≡ []

abbrev pub session_subject_key : Bytes
session_subject_key = codes "outerstellar.auth.subject"

abbrev pub session_security_version_key : Bytes
session_security_version_key = codes "outerstellar.auth.security_version"

pub data SessionError (E : Type 0) : Type 0 where
  subject_required version_required version_missing version_stale mismatched_subject :
      SessionError E
  renew_failed destroy_failed resolve_failed : E → SessionError E

module _ {S E : Type 0} (m : SessionManager S E) where
  -- `RenewToken` first; the identity is written only if it succeeds.
  unfoldable pub renewed :
      SessionIdentity → Result E (Unit {0}) × S → Result (SessionError E) (Unit {0}) × S
  renewed identity (err e, s) = (err (renew_failed e), s)
  renewed identity (ok _, s) = (
    ok tt,
    m.put (m.put s session_subject_key identity.subject) session_security_version_key
        identity.security_version,
  )

  unfoldable pub sign_in : S → SessionIdentity → Result (SessionError E) (Unit {0}) × S
  unfolding renewed
  sign_in s identity =
      if is_empty (trim_space identity.subject)
      then (err subject_required, s)
      else if is_empty identity.security_version
      then (err version_required, s)
      else renewed identity (m.renew_token s)

  unfoldable pub sign_out : S → Result (SessionError E) (Unit {0}) × S
  sign_out s = forward destroy_failed (m.destroy s)

  -- The application's own values: `Put`, `GetString` and `Remove`.
  unfoldable pub put_value : S → Bytes → Bytes → S
  put_value s key value = m.put s key value

  unfoldable pub get_value : S → Bytes → Bytes
  get_value s key = m.get_string s key

  unfoldable pub remove_value : S → Bytes → S
  remove_value s key = m.remove s key
