-- ===== src/Auth/Sessions/Cookies.antt =====
-- The settings that `NewSessions` accepts and writes.
use gouterstellar_platform.Base.{ok, ◌≡◌, ◌≢◌, ◌↔◌, ◌⊎◌, Bool, true, not, [], arith}
use gouterstellar_platform.Base.Int.{ℤ, pos, negsuc, ◌≤ℤ◌}
use gouterstellar_platform.Text.Trim.{trim_space}
use gouterstellar_platform.Text.Fields.{is_empty-false}
use gouterstellar_platform.Auth.Sessions.Config.{
  SessionConfig, Settings, new_sessions, same_site_lax, same_site_strict, same_site_none, eq_ℤ,
}

pub eq_ℤ_iff : (a b : ℤ) → (eq_ℤ a b ≡ true) ↔ (a ≡ b)
eq_ℤ_iff (pos a) (pos b) = ground arith
eq_ℤ_iff (negsuc a) (negsuc b) = ground arith
eq_ℤ_iff (pos a) (negsuc b) = ground arith
eq_ℤ_iff (negsuc a) (pos b) = ground arith

pub record IsStrict (t : Settings) : Type 0 where
  pub named : trim_space t.name ≢ []
  pub lifetime_pos : pos 1 ≤ℤ t.lifetime
  pub idle_nonneg : pos 0 ≤ℤ t.idle_timeout
  pub idle-le : t.idle_timeout ≤ℤ t.lifetime
  pub hidden : t.http_only ≡ true
  pub hashed : t.hash_token_in_store ≡ true
  pub site :
      (t.same_site ≡ same_site_lax)
      ⊎ (t.same_site ≡ same_site_strict)
      ⊎ ((t.same_site ≡ same_site_none) × (t.secure ≡ true))

-- Accepted settings have a named cookie that scripts cannot read, a positive lifetime and an idle
-- time within it, store the token hashed, and are Lax, Strict, or None with secure cookies; cookies
-- are secure unless the configuration allows insecure ones.
pub new_sessions-IsStrict :
    (has_store has_resolver : Bool) (config : SessionConfig) (t : Settings)
    → new_sessions has_store has_resolver config ≡ ok t
    → IsStrict t × (t.secure ≡ not config.allow_insecure_cookies)
unfolding new_sessions
new_sessions-IsStrict has_store has_resolver config t h = (
  record {
    named = ground (arith, is_empty-false (trim_space config.cookie_name));
    lifetime_pos = ground (arith, eq_ℤ_iff config.lifetime (pos 0));
    idle_nonneg = ground arith;
    idle-le = ground arith;
    hidden = ground arith;
    hashed = ground arith;
    site = ground (
      arith,
      eq_ℤ_iff t.same_site same_site_lax,
      eq_ℤ_iff t.same_site same_site_strict,
      eq_ℤ_iff t.same_site same_site_none,
    );
  },
  ground arith,
)
