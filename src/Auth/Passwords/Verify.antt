-- ===== src/Auth/Passwords/Verify.antt =====
-- Verification: what is handed to the Argon2 library, and what the result says.
use gouterstellar_platform.Base.{
  Bool-cases, Result, ok, err, ◌>>=◌, map_err, Result-cases, length, ◌≤◌, ◌≡◌, ap, ◌≢◌, ◌↔◌, ◌⊎◌,
  inl, inr, true, false, not, ◌&&◌, arith,
}
use gouterstellar_platform.Base.Int.{pos, ltb_ℤ, ◌≤ℤ◌}
use gouterstellar_platform.Text.{Bytes}
use gouterstellar_platform.Auth.Passwords.Params.{
  Params, params_eq, params_eq_iff, unsafe_params, unsafe_params_iff, IsSafe, max_argon_hash_bytes,
}
use gouterstellar_platform.Auth.Passwords.Defs.{
  Argon, Passwords, PasswordVerification, PasswordError, verify_failed, preflight_hash,
  password_too_long, validate_candidate_password, decode_hash, verify_with_rehash,
}

-- A verification that may run: the password is within the policy's maximum, the hash is short, and
-- its cost parameters are safe.
pub record IsCheap {E : Type 0} (a : Argon E) (p : Passwords) (password hash : Bytes) : Type 0 where
  pub password_bound : pos (length password) ≤ℤ p.max_bytes
  pub hash_bound : length hash ≤ max_argon_hash_bytes
  pub params : Params
  pub decoded : a.decode_hash hash ≡ ok params
  pub safe : IsSafe params

module _ {E : Type 0} (a : Argon E) where
  decoded_cheap :
      (stored : Bytes) (params : Params)
      → decode_hash a stored ≡ ok params
      → (length stored ≤ max_argon_hash_bytes)
        × (a.decode_hash stored ≡ ok params)
        × (unsafe_params params ≡ false)
  unfolding decode_hash preflight_hash
  decoded_cheap stored params h = ground arith

module _ {E : Type 0} (a b : Argon E) where
  decode_hash-eq :
      (stored : Bytes)
      → (length stored ≤ max_argon_hash_bytes → a.decode_hash stored ≡ b.decode_hash stored)
      → decode_hash a stored ≡ decode_hash b stored
  unfolding decode_hash preflight_hash
  decode_hash-eq stored same = ground (arith, same)

module _ {E : Type 0} (a : Argon E) (p : Passwords) where
  -- What verification does once the password and the stored hash have passed.
  abbrev finish : Params → Bytes → Bytes → Result (PasswordError E) PasswordVerification
  finish params stored password = do
    matched ← map_err verify_failed (a.compare_hash password stored)
    ok (record { matched = matched; needs_rehash = matched && not (params_eq params p.params) })

  verify_steps :
      (stored password : Bytes)
      → (verify_with_rehash a p stored password ≡ err password_too_long)
        ⊎ ((pos (length password) ≤ℤ p.max_bytes)
            × (verify_with_rehash a p stored password
                ≡ (decode_hash a stored >>= λ params. finish params stored password)))
  unfolding verify_with_rehash validate_candidate_password
  verify_steps stored password = elim (Bool-cases (ltb_ℤ p.max_bytes (pos (length password)))) [
    | inl long ↦ inl (rw long)
    | inr short ↦ inr (ground arith, rw short)
  ]

module _ {E : Type 0} (a b : Argon E) (p : Passwords) where
  -- Two Argon2 libraries that decode short strings alike, and compare alike where the password is
  -- within the maximum, the hash is short and its cost parameters are safe, give the same
  -- verification: nothing else is ever asked of the library.
  pub verify_bounded :
      ((stored : Bytes)
        → length stored ≤ max_argon_hash_bytes
        → a.decode_hash stored ≡ b.decode_hash stored)
      → ((password stored : Bytes)
          → IsCheap a p password stored
          → a.compare_hash password stored ≡ b.compare_hash password stored)
      → (stored password : Bytes)
      → verify_with_rehash a p stored password ≡ verify_with_rehash b p stored password
  unfolding verify_with_rehash validate_candidate_password
  verify_bounded decodes compares stored password =
      elim (Bool-cases (ltb_ℤ p.max_bytes (pos (length password)))) [
        | inl long ↦ rw long
        | inr short ↦ elim (Result-cases (decode_hash a stored)) [
          | inl (params, e) ↦
              let (bound, decoded, safe) = decoded_cheap a stored params e in
              let cheap : IsCheap a p password stored = record {
                password_bound = ground arith;
                hash_bound = bound;
                params = params;
                decoded = decoded;
                safe = (unsafe_params_iff params).0 safe;
              } in
              rw (
                short,
                ← decode_hash-eq a b stored (decodes stored),
                e,
                compares password stored cheap,
              )
          | inr (x, e) ↦ rw (short, ← decode_hash-eq a b stored (decodes stored), e)
        ]
      ]

module _ {E : Type 0} (a : Argon E) (p : Passwords) where
  finish_sound :
      (params : Params) (stored password : Bytes) (v : PasswordVerification)
      → finish a p params stored password ≡ ok v
      → (a.compare_hash password stored ≡ ok v.matched)
        × (v.needs_rehash ≡ (v.matched && not (params_eq params p.params)))
  finish_sound params stored password v h = ground arith

  needs_iff :
      (params : Params) (v : PasswordVerification) (stored : Bytes)
      → a.decode_hash stored ≡ ok params
      → v.needs_rehash ≡ (v.matched && not (params_eq params p.params))
      → (v.needs_rehash ≡ true) ↔ ((v.matched ≡ true) × (a.decode_hash stored ≢ ok p.params))
  needs_iff params v stored d e = (forth, back)
    where
      forth : v.needs_rehash ≡ true → (v.matched ≡ true) × (a.decode_hash stored ≢ ok p.params)
      forth h = (ground arith, λ same. ground (arith, params_eq_iff params p.params))

      back : (v.matched ≡ true) × (a.decode_hash stored ≢ ok p.params) → v.needs_rehash ≡ true
      back h = ground (arith, params_eq_iff params p.params)

  -- A verification that succeeds rests on a stored hash with safe cost parameters, reports what the
  -- comparison said, and asks for a new hash exactly when the password matched and those
  -- parameters are not the configured ones.
  pub verify_sound :
      (stored password : Bytes) (v : PasswordVerification)
      → verify_with_rehash a p stored password ≡ ok v
      → IsCheap a p password stored
        × (a.compare_hash password stored ≡ ok v.matched)
        × ((v.needs_rehash ≡ true) ↔ ((v.matched ≡ true) × (a.decode_hash stored ≢ ok p.params)))
  verify_sound stored password v h = elim (verify_steps a p stored password) [
    | inl e ↦ cc
    | inr (bound, e) ↦ elim (Result-cases (decode_hash a stored)) [
      | inl (params, d) ↦
          let (short, decoded, safe) = decoded_cheap a stored params d in
          let done : finish a p params stored password ≡ ok v =
            cc (ap (λ r. r >>= λ q. finish a p q stored password) d) in
          let (compared, rehash) = finish_sound params stored password v done in
          (
            record {
              password_bound = bound;
              hash_bound = short;
              params = params;
              decoded = decoded;
              safe = (unsafe_params_iff params).0 safe;
            },
            compared,
            needs_iff params v stored decoded rehash,
          )
      | inr (x, d) ↦ cc (ap (λ r. r >>= λ q. finish a p q stored password) d)
    ]
  ]
