-- ===== src/Auth/Passwords/Defs.antt =====
-- The policy object and its methods.
use gouterstellar_platform.Base.{
  ltb, if◌then◌else◌, Result, ok, ◌>>=◌, ◌>>◌, fail_if, map_err, length, ℕ, zero, suc, ◌+◌, ◌*◌,
  ◌/◌, ◌%◌, Bool, false, not, ◌&&◌, ◌||◌, List, [], ◌∷◌,
}
use gouterstellar_platform.Base.Int.{ℤ, pos, negsuc, ltb_ℤ}
use gouterstellar_platform.Text.{Bytes}
use gouterstellar_platform.Text.Split.{split}
use gouterstellar_platform.Auth.Passwords.Params.{
  Params, params_eq, zero_params, default_params, unsafe_params, max_argon_hash_bytes,
  max_argon_salt_bytes, max_argon_key_bytes,
}

-- The library argon2id, as the code calls it. Creating a hash draws a random salt, so a call stands
-- for any of its outcomes; decoding also gives the salt and the key, which the code drops.
pub record Argon (E : Type 0) : Type 0 where
  pub create_hash : Bytes → Params → Result E Bytes
  pub decode_hash : Bytes → Result E Params
  pub compare_hash : Bytes → Bytes → Result E Bool

pub record PasswordConfig : Type 0 where
  pub min_bytes : ℤ
  pub max_bytes : ℤ
  pub params : Params

pub record Passwords : Type 0 where
  pub min_bytes : ℤ
  pub max_bytes : ℤ
  pub params : Params

pub record PasswordVerification : Type 0 where
  pub matched : Bool
  pub needs_rehash : Bool

pub data PasswordError (E : Type 0) : Type 0 where
  password_too_short password_too_long unsafe_hash invalid_policy : PasswordError E
  hash_failed decode_failed verify_failed : E → PasswordError E

abbrev pub default_min_password_bytes : ℤ
default_min_password_bytes = pos 12

abbrev pub default_max_password_bytes : ℤ
default_max_password_bytes = pos 1024

-- `if n == 0 { n = d }`.
abbrev pub or_default : ℤ → ℤ → ℤ
or_default (pos zero) d = d
or_default (pos (suc n)) d = pos (suc n)
or_default (negsuc n) d = negsuc n

module _ {E : Type 0} where
  unfoldable pub validate_argon_params : Params → Result (PasswordError E) (Unit {0})
  validate_argon_params params = fail_if (unsafe_params params) unsafe_hash

  unfoldable pub new_passwords : PasswordConfig → Result (PasswordError E) Passwords
  unfolding validate_argon_params
  new_passwords config =
      let min_bytes = or_default config.min_bytes default_min_password_bytes in
      let max_bytes = or_default config.max_bytes default_max_password_bytes in
      let params = if params_eq config.params zero_params then default_params else config.params in
      do
        fail_if (ltb_ℤ min_bytes (pos 1) || ltb_ℤ max_bytes min_bytes) invalid_policy
        validate_argon_params params
        ok (record { min_bytes = min_bytes; max_bytes = max_bytes; params = params })

  unfoldable pub validate_password : Passwords → Bytes → Result (PasswordError E) (Unit {0})
  validate_password p password = do
    fail_if (ltb_ℤ (pos (length password)) p.min_bytes) password_too_short
    fail_if (ltb_ℤ p.max_bytes (pos (length password))) password_too_long
    ok tt

  unfoldable pub validate_candidate_password :
      Passwords → Bytes → Result (PasswordError E) (Unit {0})
  validate_candidate_password p password =
      fail_if (ltb_ℤ p.max_bytes (pos (length password))) password_too_long

-- `base64.RawStdEncoding.EncodedLen`.
unfoldable pub encoded_len : ℕ → ℕ
encoded_len n = n / 3 * 4 + (n % 3 * 8 + 5) / 6

-- The parts of a PHC string, if there are six: the fifth is the salt and the sixth the key.
unfoldable pub oversized : List Bytes → Bool
oversized (_ ∷ _ ∷ _ ∷ _ ∷ salt ∷ key ∷ []) =
    ltb (encoded_len max_argon_salt_bytes) (length salt)
    || ltb (encoded_len max_argon_key_bytes) (length key)
oversized _ = false

unfoldable pub preflight_hash : {E : Type 0} → Bytes → Result (PasswordError E) (Unit {0})
preflight_hash hash = do
  fail_if (ltb max_argon_hash_bytes (length hash)) unsafe_hash
  fail_if (oversized (split hash b'$')) unsafe_hash

module _ {E : Type 0} (argon : Argon E) where
  unfoldable pub decode_hash : Bytes → Result (PasswordError E) Params
  unfolding validate_argon_params
  decode_hash hash = do
    preflight_hash hash
    params ← map_err decode_failed (argon.decode_hash hash)
    validate_argon_params params
    ok params

  unfoldable pub hash : Passwords → Bytes → Result (PasswordError E) Bytes
  unfolding validate_password
  hash p password = do
    validate_password p password
    map_err hash_failed (argon.create_hash password p.params)

  unfoldable pub verify_with_rehash :
      Passwords → Bytes → Bytes → Result (PasswordError E) PasswordVerification
  verify_with_rehash p hash password = do
    validate_candidate_password p password
    params ← decode_hash hash
    matched ← map_err verify_failed (argon.compare_hash password hash)
    ok (record { matched = matched; needs_rehash = matched && not (params_eq params p.params) })

  unfoldable pub verify : Passwords → Bytes → Bytes → Result (PasswordError E) Bool
  verify p hash password = do
    verification ← verify_with_rehash p hash password
    ok verification.matched

  unfoldable pub needs_rehash : Passwords → Bytes → Result (PasswordError E) Bool
  needs_rehash p hash = do params ← decode_hash hash; ok (not (params_eq params p.params))
