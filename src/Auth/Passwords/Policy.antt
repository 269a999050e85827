-- ===== src/Auth/Passwords/Policy.antt =====
-- What a policy object that `NewPasswords` returns holds, and what it lets through.
use gouterstellar_platform.Base.{
  if◌then◌else◌, Result, ok, ◌>>◌, fail_if, length, ◌≡◌, subst, ◌||◌, arith,
}
use gouterstellar_platform.Base.Int.{ℤ, pos, ltb_ℤ, ◌≤ℤ◌}
use gouterstellar_platform.Text.{Bytes}
use gouterstellar_platform.Auth.Passwords.Params.{
  Params, params_eq, zero_params, default_params, unsafe_params_iff, IsSafe,
}
use gouterstellar_platform.Auth.Passwords.Defs.{
  Argon, PasswordConfig, Passwords, PasswordError, new_passwords, invalid_policy, or_default,
  default_min_password_bytes, default_max_password_bytes, validate_argon_params, validate_password,
  hash,
}

-- The limits of a policy object.
pub record IsPolicy (p : Passwords) : Type 0 where
  pub min_pos : pos 1 ≤ℤ p.min_bytes
  pub min-le-max : p.min_bytes ≤ℤ p.max_bytes
  pub safe : IsSafe p.params

-- The checks of `NewPasswords`, behind its defaults.
abbrev checked : {E : Type 0} → ℤ → ℤ → Params → Result (PasswordError E) Passwords
checked min_bytes max_bytes params = do
  fail_if (ltb_ℤ min_bytes (pos 1) || ltb_ℤ max_bytes min_bytes) invalid_policy
  validate_argon_params params
  ok (record { min_bytes = min_bytes; max_bytes = max_bytes; params = params })

checked-IsPolicy :
    {E : Type 0} (min_bytes max_bytes : ℤ) (params : Params) (p : Passwords)
    → checked {E = E} min_bytes max_bytes params ≡ ok p
    → IsPolicy p
unfolding validate_argon_params
checked-IsPolicy min_bytes max_bytes params p h = record {
  min_pos = ground arith;
  min-le-max = ground arith;
  safe = subst IsSafe (ground arith) ((unsafe_params_iff params).0 (ground arith));
}

-- A policy object has a positive minimum that is at most the maximum, and safe cost parameters.
pub new_passwords-IsPolicy :
    {E : Type 0} (config : PasswordConfig) (p : Passwords)
    → new_passwords {E = E} config ≡ ok p
    → IsPolicy p
unfolding new_passwords
new_passwords-IsPolicy config p h =
    checked-IsPolicy (or_default config.min_bytes default_min_password_bytes)
      (or_default config.max_bytes default_max_password_bytes)
      (if params_eq config.params zero_params then default_params else config.params) p h

module _ {E : Type 0} (a : Argon E) (p : Passwords) where
  -- A password is hashed only if its length in bytes is within the policy.
  pub hash_within :
      (password h : Bytes)
      → hash a p password ≡ ok h
      → (p.min_bytes ≤ℤ pos (length password)) × (pos (length password) ≤ℤ p.max_bytes)
  unfolding hash validate_password
  hash_within password h e = ground arith
