-- ===== src/Auth/Totp/Defs.antt =====
-- The profile, enrolment and validation.
use gouterstellar_platform.Base.{
  ltb, leb, ◌==◌, if◌then◌else◌, Result, ok, ◌>>◌, fail_if, map_err, length, ℕ, Bool, true, false,
  not, ◌&&◌, ◌||◌, [], ◌∷◌,
}
use gouterstellar_platform.Base.Int.{ℤ, pos, pos_part, neg_part}
use gouterstellar_platform.Text.{Bytes, is_empty}
use gouterstellar_platform.Text.Trim.{trim_space}

abbrev pub min_totp_period_seconds : ℕ
min_totp_period_seconds = 15

abbrev pub max_totp_period_seconds : ℕ
max_totp_period_seconds = 60

abbrev pub max_totp_skew : ℕ
max_totp_skew = 2

pub record TotpConfig : Type 0 where
  pub issuer : Bytes
  pub period : ℕ
  pub skew : ℕ
  pub digits : ℤ
  pub algorithm : ℤ

pub record Enrollment : Type 0 where
  pub secret : Bytes
  pub url : Bytes

-- What the code uses of the library otp: its constants, the length of a number of digits, the making
-- of a key for an account, and the check of a code against a secret at a time.
pub record OtpLibrary (E : Type 0) : Type 0 where
  pub digits_six : ℤ
  pub digits_eight : ℤ
  pub digits_length : ℤ → ℤ
  pub sha1 : ℤ
  pub sha256 : ℤ
  pub sha512 : ℤ
  pub generate : TotpConfig → Bytes → Result E Enrollment
  pub validate_custom : TotpConfig → Bytes → Bytes → ℕ → Result E Bool

pub data TotpError (E : Type 0) : Type 0 where
  issuer_required digits_unsupported period_bounds skew_bound algorithm_unsupported : TotpError E
  account_required : TotpError E
  generate_failed validate_failed : E → TotpError E

abbrev pub eq_ℤ : ℤ → ℤ → Bool
eq_ℤ a b = pos_part a == pos_part b && neg_part a == neg_part b

-- The loop over the code: every byte of a character that is no digit is no digit either.
unfoldable pub all_digits : Bytes → Bool
all_digits [] = true
all_digits (c ∷ s) = leb b'0' c && leb c b'9' && all_digits s

module _ {E : Type 0} (library : OtpLibrary E) where
  unfoldable pub with_defaults : TotpConfig → TotpConfig
  with_defaults config = record config {
    period = if config.period == 0 then 30 else config.period;
    digits = if eq_ℤ config.digits (pos 0) then library.digits_six else config.digits;
    algorithm = if eq_ℤ config.algorithm (pos 0) then library.sha1 else config.algorithm;
  }

  unfoldable pub supported_totp_algorithm : ℤ → Bool
  supported_totp_algorithm a = eq_ℤ a library.sha1 || eq_ℤ a library.sha256 || eq_ℤ a library.sha512

  -- The tests of `NewTOTP` behind the defaults.
  unfoldable pub check_config : TotpConfig → Result (TotpError E) TotpConfig
  check_config config = do
    fail_if
        (not (eq_ℤ config.digits library.digits_six)
          && not (eq_ℤ config.digits library.digits_eight))
        digits_unsupported
    fail_if (ltb config.period min_totp_period_seconds || ltb max_totp_period_seconds config.period)
        period_bounds
    fail_if (ltb max_totp_skew config.skew) skew_bound
    fail_if (not (supported_totp_algorithm config.algorithm)) algorithm_unsupported
    ok config

  -- A `TOTP` is the config that it was made with.
  unfoldable pub new_totp : TotpConfig → Result (TotpError E) TotpConfig
  new_totp config = do
    fail_if (is_empty (trim_space config.issuer)) issuer_required
    check_config (with_defaults config)

  unfoldable pub enroll : TotpConfig → Bytes → Result (TotpError E) Enrollment
  enroll config account = do
    fail_if (is_empty (trim_space account)) account_required
    map_err generate_failed (library.generate config account)

  unfoldable pub validate : TotpConfig → Bytes → Bytes → ℕ → Result (TotpError E) Bool
  validate config secret code now =
      if not (eq_ℤ (pos (length code)) (library.digits_length config.digits))
      then ok false
      else if not (all_digits code)
      then ok false
      else map_err validate_failed (library.validate_custom config code secret now)
