-- ===== src/Auth/Passwords/Tests.antt =====
-- A stand-in for Argon2 that writes the password into the hash, and runs over it.
use gouterstellar_platform.Base.{
  ltb, if◌then◌else◌, Result, ok, err, length, ℕ, ◌≡◌, refl, sym, subst, ◌≢◌, ◌↔◌, Bool, true,
  false, ◌&&◌, [], ◌∷◌, ◌++◌, arith,
}
use gouterstellar_platform.Base.Int.{pos, negsuc}
use gouterstellar_platform.Text.{Bytes, codes, text_eq, text_eq_iff}
use gouterstellar_platform.Text.Split.{split, grow}
use gouterstellar_platform.Auth.Passwords.Params.{
  Params, params_eq, params_eq_iff, zero_params, default_params, unsafe_params, unsafe_params_iff,
}
use gouterstellar_platform.Auth.Passwords.{
  Argon, PasswordConfig, Passwords, PasswordError, unsafe_hash, new_passwords,
  validate_argon_params, validate_password, validate_candidate_password, oversized, preflight_hash,
  decode_hash, hash, verify_with_rehash, verify, needs_rehash, encoded_len,
}
use gouterstellar_platform.Auth.Passwords.Verify.{IsCheap, verify_bounded, verify_sound}
use gouterstellar_platform.Auth.Passwords.RoundTrip.{Creates, verify-hash}
use gouterstellar_platform.Auth.Passwords.Policy.{IsPolicy, new_passwords-IsPolicy}

abbrev salt : Bytes
salt = codes "AAAAAAAAAAAAAAAAAAAAAA"

abbrev key : Bytes
key = codes "AAAAAAAAAAAAAAAAAAAAAAAAAAAAAAAAAAAAAAAAAAA"

abbrev stored : Bytes
stored =
    codes
      "$argon2id$v=19$m=65536,t=3,p=2$AAAAAAAAAAAAAAAAAAAAAA$AAAAAAAAAAAAAAAAAAAAAAAAAAAAAAAAAAAAAAAAAAA"

-- It knows one string, and hashes the password of twelve a's to it.
abbrev known : Bytes
known = codes "aaaaaaaaaaaa"

create : Bool → Result ℕ Bytes
create true = ok stored
create false = err 1

abbrev argon : Argon ℕ
argon = record {
  create_hash =
      λ password params. create (text_eq password known && params_eq params default_params);
  decode_hash = λ h. ok default_params;
  compare_hash = λ password h. ok (text_eq password known);
}

abbrev policy : Passwords
policy = record { min_bytes = pos 12; max_bytes = pos 1024; params = default_params }

abbrev config : PasswordConfig
config = record { min_bytes = pos 0; max_bytes = pos 0; params = zero_params }

configured : new_passwords {E = ℕ} config ≡ ok policy
unfolding new_passwords validate_argon_params params_eq unsafe_params
configured = refl

new_passwords-IsPolicy_example : IsPolicy policy
new_passwords-IsPolicy_example = new_passwords-IsPolicy config policy configured

negative_minimum :
    new_passwords {E = ℕ} (record config { min_bytes = negsuc 3 })
    ≡ err PasswordError.invalid_policy
unfolding new_passwords
negative_minimum = refl

hashed : hash argon policy known ≡ ok stored
unfolding hash validate_password text_eq params_eq create
hashed = refl

heavy_rejected : unsafe_params (record default_params { memory = 262144; iterations = 3 }) ≡ true
unfolding unsafe_params
heavy_rejected = refl

verified :
    verify_with_rehash argon policy stored known
    ≡ ok (record { matched = true; needs_rehash = false })
unfolding verify_with_rehash validate_candidate_password decode_hash preflight_hash oversized
    validate_argon_params unsafe_params params_eq text_eq split grow encoded_len
verified = refl

verify_sound_example :
    IsCheap argon policy known stored
    × (argon.compare_hash known stored ≡ ok true)
    × ((false ≡ true) ↔ ((true ≡ true) × (argon.decode_hash stored ≢ ok policy.params)))
verify_sound_example =
    verify_sound argon policy stored known (record { matched = true; needs_rehash = false })
      verified

-- The same library, but for an error on passwords above the maximum.
abbrev limited : Argon ℕ
limited = record argon {
  compare_hash =
      λ password h. if ltb 1024 (length password) then err 9 else ok (text_eq password known);
}

limited-eq :
    (password h : Bytes)
    → IsCheap argon policy password h
    → argon.compare_hash password h ≡ limited.compare_hash password h
limited-eq password h cheap = ground (arith, cheap.password_bound)

verify_bounded_example :
    verify_with_rehash argon policy stored known ≡ verify_with_rehash limited policy stored known
verify_bounded_example =
    verify_bounded argon limited policy (λ h short. refl) limited-eq stored known

long_hash_refused : verify argon policy (stored ++ stored ++ stored) known ≡ err unsafe_hash
unfolding verify verify_with_rehash validate_candidate_password decode_hash preflight_hash
long_hash_refused = refl

stored_parts :
    split stored b'$'
    ≡ [] ∷ codes "argon2id" ∷ codes "v=19" ∷ codes "m=65536,t=3,p=2" ∷ salt ∷ key ∷ []
unfolding split grow
stored_parts = refl

stored-Creates : Creates argon known default_params stored
unfolding encoded_len text_eq
stored-Creates = record {
  algorithm = codes "argon2id";
  version = codes "v=19";
  costs = codes "m=65536,t=3,p=2";
  salt = salt;
  key = key;
  parts = stored_parts;
  header = omega arith;
  salt_size = refl;
  key_size = refl;
  decodes = refl;
  matches = refl;
}

create_inv : (b : Bool) (h : Bytes) → create b ≡ ok h → (b ≡ true) × (stored ≡ h)
unfolding create
create_inv true h e = (refl, ground arith)
create_inv false h e = cc

argon-Creates :
    (password h : Bytes) (params : Params)
    → argon.create_hash password params ≡ ok h
    → Creates argon password params h
argon-Creates password h params e =
    let (same, to_h) = create_inv _ h e in
    subst (λ q. Creates argon q params h) (sym ((text_eq_iff password known).0 (ground arith)))
      (subst (λ r. Creates argon known r h)
        (sym ((params_eq_iff params default_params).0 (ground arith)))
        (subst (Creates argon known default_params) to_h stored-Creates))

verify-hash_example :
    verify_with_rehash argon policy stored known
    ≡ ok (record { matched = true; needs_rehash = false })
verify-hash_example =
    verify-hash argon policy argon-Creates known stored
      ((unsafe_params_iff default_params).0 (unfold unsafe_params in refl)) hashed

current :
    needs_rehash argon (record policy { params = record default_params { iterations = 2 } }) stored
    ≡ ok true
unfolding needs_rehash decode_hash preflight_hash oversized validate_argon_params unsafe_params
    params_eq split grow encoded_len
current = refl
