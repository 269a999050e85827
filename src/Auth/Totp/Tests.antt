-- ===== src/Auth/Totp/Tests.antt =====
-- A library that accepts one code.
use gouterstellar_platform.Base.{ok, err, All, ℕ, ◌≤◌, ◌≡◌, refl, ◌⊎◌, true, false}
use gouterstellar_platform.Base.Int.{pos}
use gouterstellar_platform.Text.{codes, text_eq}
use gouterstellar_platform.Text.Trim.{trim_space}
use gouterstellar_platform.Auth.Totp.{
  TotpConfig, OtpLibrary, all_digits, with_defaults, check_config, new_totp, validate,
  supported_totp_algorithm, digits_unsupported,
}
use gouterstellar_platform.Auth.Totp.Codes.{IsDigit, accepted_code}

abbrev library : OtpLibrary ℕ
library = record {
  digits_six = pos 6;
  digits_eight = pos 8;
  digits_length = λ d. d;
  sha1 = pos 0;
  sha256 = pos 1;
  sha512 = pos 2;
  generate = λ c a. ok (record { secret = codes "s"; url = codes "otpauth:" });
  validate_custom = λ c code secret now. ok (text_eq code (codes "123456"));
}

abbrev given : TotpConfig
given = record { issuer = codes "i"; period = 0; skew = 1; digits = pos 0; algorithm = pos 0 }

abbrev profile : TotpConfig
profile = record { issuer = codes "i"; period = 30; skew = 1; digits = pos 6; algorithm = pos 0 }

made : new_totp library given ≡ ok profile
unfolding new_totp check_config with_defaults supported_totp_algorithm trim_space
made = refl

five : new_totp library (record given { digits = pos 5 }) ≡ err digits_unsupported
unfolding new_totp check_config with_defaults supported_totp_algorithm trim_space
five = refl

accepted : validate library profile (codes "s") (codes "123456") 0 ≡ ok true
unfolding validate all_digits text_eq
accepted = refl

letter : validate library profile (codes "s") (codes "12345a") 0 ≡ ok false
unfolding validate all_digits text_eq
letter = refl

accepted_code_example :
    All IsDigit (codes "123456")
    × (pos 6 ≡ pos 6)
    × ((pos 6 ≡ pos 6) ⊎ (pos 6 ≡ pos 8))
    × (library.validate_custom profile (codes "123456") (codes "s") 0 ≡ ok true)
    × (15 ≤ 30)
    × (30 ≤ 60)
    × (1 ≤ 2)
accepted_code_example =
    accepted_code library given profile (codes "s") (codes "123456") 0 made accepted
