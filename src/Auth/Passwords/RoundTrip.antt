-- ===== src/Auth/Passwords/RoundTrip.antt =====
-- Hashing a password and verifying it.
use gouterstellar_platform.Base.{
  ok, length, ℕ, ◌+◌, ◌≤◌, ◌≡◌, refl, ap, true, false, [], ◌∷◌, arith,
}
use gouterstellar_platform.Text.{Bytes}
use gouterstellar_platform.Text.Split.{split, joined_length, joined_length-split}
use gouterstellar_platform.Auth.Passwords.Params.{Params, params_eq_iff, unsafe_params_iff, IsSafe}
use gouterstellar_platform.Auth.Passwords.Defs.{
  Argon, Passwords, encoded_len, oversized, preflight_hash, decode_hash, hash, validate_password,
  validate_candidate_password, verify_with_rehash,
}

-- What a library promises of a hash that it creates: a PHC string of six parts, whose salt and key
-- are in base64 of the lengths asked for and whose other parts are short, which decodes to the
-- parameters and matches the password.
pub record Creates {E : Type 0} (a : Argon E) (password : Bytes) (params : Params) (h : Bytes)
    : Type 0 where
  pub algorithm : Bytes
  pub version : Bytes
  pub costs : Bytes
  pub salt : Bytes
  pub key : Bytes
  pub parts : split h b'$' ≡ [] ∷ algorithm ∷ version ∷ costs ∷ salt ∷ key ∷ []
  pub header : length algorithm + length version + length costs ≤ 43
  pub salt_size : length salt ≡ encoded_len params.salt_length
  pub key_size : length key ≡ encoded_len params.key_length
  pub decodes : a.decode_hash h ≡ ok params
  pub matches : a.compare_hash password h ≡ ok true

encoded_len-64 : (n : ℕ) → n ≤ 64 → encoded_len n ≤ 86
unfolding encoded_len
encoded_len-64 n h = omega arith

encoded_len_64 : encoded_len 64 ≡ 86
unfolding encoded_len
encoded_len_64 = refl

module _ {E : Type 0} (a : Argon E) (p : Passwords)
    (creates : (password h : Bytes) (params : Params)
      → a.create_hash password params ≡ ok h
      → Creates a password params h) where
  created_decodes :
      (password h : Bytes)
      → IsSafe p.params
      → Creates a password p.params h
      → decode_hash a h ≡ ok p.params
  unfolding decode_hash preflight_hash oversized
  created_decodes password h safe c = ground (
    arith,
    c.decodes,
    joined_length-split h b'$',
    ap joined_length c.parts,
    ap oversized c.parts,
    c.header,
    c.salt_size,
    c.key_size,
    encoded_len-64 p.params.salt_length safe.salt_bound,
    encoded_len-64 p.params.key_length safe.key_bound,
    encoded_len_64,
    (unsafe_params_iff p.params).1 safe,
  )

  -- A password that was hashed is verified by its hash, and the hash needs no upgrade.
  pub verify-hash :
      (password h : Bytes)
      → IsSafe p.params
      → hash a p password ≡ ok h
      → verify_with_rehash a p h password ≡ ok (record { matched = true; needs_rehash = false })
  unfolding hash validate_password verify_with_rehash validate_candidate_password
  verify-hash password h safe hashed = ground (
    arith,
    creates password h p.params,
    created_decodes password h safe,
    (params_eq_iff p.params p.params).1 refl,
  )
