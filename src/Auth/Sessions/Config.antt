-- ===== src/Auth/Sessions/Config.antt =====
-- `SessionConfig` and `NewSessions`: lifetimes in nanoseconds, and the cookie policy.
use gouterstellar_platform.Base.{
  ◌==◌, if◌then◌else◌, Result, ok, ◌>>◌, fail_if, ◌*◌, Bool, true, false, not, ◌&&◌, ◌||◌,
}
use gouterstellar_platform.Base.Int.{ℤ, pos, negsuc, ltb_ℤ}
use gouterstellar_platform.Text.{Bytes, codes, is_empty}
use gouterstellar_platform.Text.Trim.{trim_space}

-- `http.SameSite`, an int with these values.
abbrev pub same_site_default : ℤ
same_site_default = pos 1

abbrev pub same_site_lax : ℤ
same_site_lax = pos 2

abbrev pub same_site_strict : ℤ
same_site_strict = pos 3

abbrev pub same_site_none : ℤ
same_site_none = pos 4

abbrev pub eq_ℤ : ℤ → ℤ → Bool
eq_ℤ (pos a) (pos b) = a == b
eq_ℤ (negsuc a) (negsuc b) = a == b
eq_ℤ (pos _) (negsuc _) = false
eq_ℤ (negsuc _) (pos _) = false

-- The error handler is left out: it only replaces scs's own.
pub record SessionConfig : Type 0 where
  pub cookie_name : Bytes
  pub same_site : ℤ
  pub lifetime : ℤ
  pub idle_timeout : ℤ
  pub persist_cookie : Bool
  pub allow_insecure_cookies : Bool

-- The settings that `NewSessions` writes into the manager.
pub record Settings : Type 0 where
  pub lifetime : ℤ
  pub idle_timeout : ℤ
  pub hash_token_in_store : Bool
  pub name : Bytes
  pub http_only : Bool
  pub path : Bytes
  pub same_site : ℤ
  pub secure : Bool
  pub persist : Bool

pub data ConfigError : Type 0 where
  store_required resolver_required cookie_name_required : ConfigError
  negative_lifetime bad_idle_timeout bad_same_site insecure_none : ConfigError

-- `12 * time.Hour`.
abbrev pub default_lifetime : ℤ
default_lifetime = pos (12 * 3600 * 1000000000)

-- The flags say whether the store and the resolver are given.
unfoldable pub new_sessions : Bool → Bool → SessionConfig → Result ConfigError Settings
new_sessions has_store has_resolver config = do
  fail_if (not has_store) store_required
  fail_if (not has_resolver) resolver_required
  fail_if (is_empty (trim_space config.cookie_name)) cookie_name_required
  fail_if (ltb_ℤ config.lifetime (pos 0)) negative_lifetime
  let lifetime = if eq_ℤ config.lifetime (pos 0) then default_lifetime else config.lifetime
  fail_if (ltb_ℤ config.idle_timeout (pos 0) || ltb_ℤ lifetime config.idle_timeout) bad_idle_timeout
  let same_site =
      if eq_ℤ config.same_site (pos 0) || eq_ℤ config.same_site same_site_default
      then same_site_lax
      else config.same_site
  fail_if
      (not (eq_ℤ same_site same_site_lax)
        && not (eq_ℤ same_site same_site_strict)
        && not (eq_ℤ same_site same_site_none))
      bad_same_site
  fail_if (eq_ℤ same_site same_site_none && config.allow_insecure_cookies) insecure_none
  ok (record {
    lifetime = lifetime;
    idle_timeout = config.idle_timeout;
    hash_token_in_store = true;
    name = config.cookie_name;
    http_only = true;
    path = codes "/";
    same_site = same_site;
    secure = not config.allow_insecure_cookies;
    persist = config.persist_cookie;
  })
