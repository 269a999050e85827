-- ===== src/Auth/Sessions/Principals.antt =====
-- Identities and principals.
use gouterstellar_platform.Base.{Result, Bool, List}
use gouterstellar_platform.Text.{Bytes, contains}

-- An opaque epoch that the application rotates.
abbrev pub SecurityVersion : Type 0
SecurityVersion = Bytes

pub record SessionIdentity : Type 0 where
  pub subject : Bytes
  pub security_version : SecurityVersion

pub record Principal : Type 0 where
  pub subject : Bytes
  pub security_version : SecurityVersion
  pub roles : List Bytes
  pub claims : List (Bytes × Bytes)

unfoldable pub has_role : Principal → Bytes → Bool
has_role p role = contains p.roles role

-- What a resolver reports: an error that wraps `ErrUnauthenticated`, or any other.
pub data ResolveError (E : Type 0) : Type 0 where
  unauthenticated : ResolveError E
  failure : E → ResolveError E

abbrev pub Resolver : Type 0 → Type 0
Resolver E = Bytes → Result (ResolveError E) Principal
