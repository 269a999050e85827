-- ===== src/Auth/Jwt/Defs.antt =====
-- The profile, `Issue` and `Verify`. Durations are in nanoseconds; times are nanoseconds since 1970,
-- which the clock is not before.
use gouterstellar_platform.Base.{
  ltb, ◌==◌, if◌then◌else◌, Result, ok, err, ◌>>=◌, ◌>>◌, fail_if, map_err, length, ℕ, suc, ◌+◌,
  ◌-◌, ◌*◌, ◌/◌, ◌%◌, Bool, true, false, not, ◌||◌, Option, none, some, List, [], ◌∷◌,
}
use gouterstellar_platform.Base.Int.{ℤ, pos, negsuc, ltb_ℤ, sub_ℕ}
use gouterstellar_platform.Text.{Bytes, codes, is_empty}

abbrev pub second : ℕ
second = 1000000000

abbrev pub min_jwt_lifetime : ℤ
min_jwt_lifetime = pos 1000000000

abbrev pub max_jwt_lifetime : ℤ
max_jwt_lifetime = pos 900000000000

abbrev pub max_jwt_leeway : ℤ
max_jwt_leeway = pos 60000000000

-- The clock is an argument of `issue` and `verify`.
pub record JwtConfig : Type 0 where
  pub issuer : Bytes
  pub audience : Bytes
  pub secret : Bytes
  pub lifetime : ℤ
  pub leeway : ℤ

pub record Jwts : Type 0 where
  pub issuer : Bytes
  pub audience : Bytes
  pub secret : Bytes
  pub lifetime : ℤ
  pub leeway : ℤ

-- `none` is a nil date.
pub record Claims : Type 0 where
  pub roles : List Bytes
  pub issuer : Bytes
  pub subject : Bytes
  pub audience : List Bytes
  pub issued_at : Option ℕ
  pub not_before : Option ℕ
  pub expires_at : Option ℕ

pub data JwtError (E : Type 0) : Type 0 where
  issuer_and_audience_required short_secret lifetime_bounds lifetime_precision leeway_bounds :
      JwtError E
  subject_required invalid_claims dates_required lifetime_exceeded : JwtError E
  sign_failed verify_failed : E → JwtError E

-- `d % time.Second != 0`: Go's remainder has the sign of `d`, which is not asked for here.
unfoldable pub is_fractional : ℤ → Bool
is_fractional (pos n) = not (n % second == 0)
is_fractional (negsuc n) = not (suc n % second == 0)

-- `t.Add(d)`, and `jwt.NewNumericDate`, which drops what is below a second.
unfoldable pub add_duration : ℕ → ℤ → ℕ
add_duration t (pos d) = t + d
add_duration t (negsuc d) = t - suc d

unfoldable pub numeric_date : ℕ → ℕ
numeric_date t = t / second * second

abbrev pub is_none : {A : Type 0} → Option A → Bool
is_none none = true
is_none (some a) = false

-- The options that `Verify` gives to the parser.
pub record ParserOptions : Type 0 where
  pub secret : Bytes
  pub valid_methods : List Bytes
  pub issuer : Bytes
  pub audience : Bytes
  pub expiration_required : Bool
  pub verify_issued_at : Bool
  pub leeway : ℤ
  pub now : ℕ

-- The library jwt: signing by HS256, and parsing with its flag `Valid`.
pub record JwtLibrary (E : Type 0) : Type 0 where
  pub sign : Bytes → Claims → Result E Bytes
  pub parse : ParserOptions → Bytes → Result E (Bool × Claims)

module _ {E : Type 0} where
  unfoldable pub new_jwts : JwtConfig → Result (JwtError E) Jwts
  new_jwts config = do
    fail_if (is_empty config.issuer || is_empty config.audience) issuer_and_audience_required
    fail_if (ltb (length config.secret) 32) short_secret
    fail_if (ltb_ℤ config.lifetime min_jwt_lifetime || ltb_ℤ max_jwt_lifetime config.lifetime)
        lifetime_bounds
    fail_if (is_fractional config.lifetime) lifetime_precision
    fail_if (ltb_ℤ config.leeway (pos 0) || ltb_ℤ max_jwt_leeway config.leeway) leeway_bounds
    ok (record {
      issuer = config.issuer;
      audience = config.audience;
      secret = config.secret;
      lifetime = config.lifetime;
      leeway = config.leeway;
    })

-- What `Issue` signs.
unfoldable pub issued_claims : Jwts → ℕ → Bytes → List Bytes → Claims
issued_claims j now subject roles = record {
  roles = roles;
  issuer = j.issuer;
  subject = subject;
  audience = j.audience ∷ [];
  issued_at = some (numeric_date now);
  not_before = some (numeric_date now);
  expires_at = some (numeric_date (add_duration now j.lifetime));
}

unfoldable pub parser_options : Jwts → ℕ → ParserOptions
parser_options j now = record {
  secret = j.secret;
  valid_methods = codes "HS256" ∷ [];
  issuer = j.issuer;
  audience = j.audience;
  expiration_required = true;
  verify_issued_at = true;
  leeway = j.leeway;
  now = now;
}

module _ {E : Type 0} (library : JwtLibrary E) where
  unfoldable pub issue : Jwts → ℕ → Bytes → List Bytes → Result (JwtError E) Bytes
  issue j now subject roles = do
    fail_if (is_empty subject) subject_required
    map_err sign_failed (library.sign j.secret (issued_claims j now subject roles))

  -- The test of the dates, which are there.
  unfoldable pub check_lifetime : Jwts → Claims → Option ℕ → Option ℕ → Result (JwtError E) Claims
  check_lifetime j claims none _ = err dates_required
  check_lifetime j claims (some _) none = err dates_required
  check_lifetime j claims (some issued_at) (some expires_at) =
      let lifetime = sub_ℕ expires_at issued_at in
      if not (ltb_ℤ (pos 0) lifetime) || ltb_ℤ j.lifetime lifetime
      then err lifetime_exceeded
      else ok claims

  -- What follows the call of the parser.
  unfoldable pub check_claims : Jwts → Bool → Claims → Result (JwtError E) Claims
  check_claims j valid claims = do
    fail_if (not valid || is_empty claims.subject) invalid_claims
    check_lifetime j claims claims.issued_at claims.expires_at

  unfoldable pub verify : Jwts → ℕ → Bytes → Result (JwtError E) Claims
  verify j now encoded = do
    (valid, claims) ← map_err verify_failed (library.parse (parser_options j now) encoded)
    check_claims j valid claims
