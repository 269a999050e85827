-- ===== src/Auth/Totp/Codes.antt =====
-- Which codes are accepted, and under which profiles.
use gouterstellar_platform.Base.{
  Bool-cases, Result, ok, err, map_err, length, All, ℕ, ◌≤◌, ◌≡◌, ◌⊎◌, inl, inr, Bool, true, [],
  ◌∷◌, arith,
}
use gouterstellar_platform.Base.Int.{ℤ, pos}
use gouterstellar_platform.Text.{Bytes, is_empty}
use gouterstellar_platform.Text.Trim.{trim_space}
use gouterstellar_platform.Auth.Totp.Defs.{
  TotpConfig, OtpLibrary, eq_ℤ, all_digits, with_defaults, check_config, new_totp, validate,
  validate_failed,
}

abbrev pub IsDigit : ℕ → Type 0
IsDigit c = (b'0' ≤ c) × (c ≤ b'9')

all_digits_sound : (s : Bytes) → all_digits s ≡ true → All IsDigit s
unfolding all_digits
all_digits_sound [] h = tt
all_digits_sound (c ∷ s) h = (ground arith, all_digits_sound s (ground arith))

eq_ℤ_sound : (a b : ℤ) → eq_ℤ a b ≡ true → a ≡ b
eq_ℤ_sound a b h = ground arith

mapped_true : {E : Type 0} (r : Result E Bool) → map_err validate_failed r ≡ ok true → r ≡ ok true
mapped_true (ok b) h = cc h
mapped_true (err e) h = cc h

module _ {E : Type 0} (library : OtpLibrary E) where
  six_or_eight :
      (d : ℤ)
      → (eq_ℤ d library.digits_six ≡ true) ⊎ (eq_ℤ d library.digits_eight ≡ true)
      → (d ≡ library.digits_six) ⊎ (d ≡ library.digits_eight)
  six_or_eight d (inl e) = inl (eq_ℤ_sound _ _ e)
  six_or_eight d (inr e) = inr (eq_ℤ_sound _ _ e)

  check_config_inv :
      (c t : TotpConfig)
      → check_config library c ≡ ok t
      → ((eq_ℤ t.digits library.digits_six ≡ true) ⊎ (eq_ℤ t.digits library.digits_eight ≡ true))
        × (15 ≤ t.period)
        × (t.period ≤ 60)
        × (t.skew ≤ 2)
  unfolding check_config
  check_config_inv c t h = ground arith

  validate_inv :
      (t : TotpConfig) (secret code : Bytes) (now : ℕ)
      → validate library t secret code now ≡ ok true
      → (eq_ℤ (pos (length code)) (library.digits_length t.digits) ≡ true)
        × (all_digits code ≡ true)
        × (library.validate_custom t code secret now ≡ ok true)
  unfolding validate
  validate_inv t secret code now h =
      elim (Bool-cases (eq_ℤ (pos (length code)) (library.digits_length t.digits))) [
        | inr f ↦ cc (rw (f, validate) at h)
        | inl e ↦ elim (Bool-cases (all_digits code)) [
          | inr f ↦ cc (rw (e, f, validate) at h)
          | inl d ↦ (
            e,
            d,
            mapped_true (library.validate_custom t code secret now) (rw (e, d, validate) at h),
          )
        ]
      ]

  new_totp_inv :
      (config t : TotpConfig)
      → new_totp library config ≡ ok t
      → check_config library (with_defaults library config) ≡ ok t
  unfolding new_totp
  new_totp_inv config t h = elim (Bool-cases (is_empty (trim_space config.issuer))) [
    | inl e ↦ cc (rw (e, new_totp) at h)
    | inr f ↦ rw (f, new_totp) at h
  ]

  -- A code that `Validate` accepts under a profile that `NewTOTP` made consists of decimal digits, as
  -- many as the profile says, which are six or eight of the library's; the library accepts it too,
  -- under a period of 15 to 60 seconds and a skew of at most two periods.
  pub accepted_code :
      (config t : TotpConfig) (secret code : Bytes) (now : ℕ)
      → new_totp library config ≡ ok t
      → validate library t secret code now ≡ ok true
      → All IsDigit code
        × (pos (length code) ≡ library.digits_length t.digits)
        × ((t.digits ≡ library.digits_six) ⊎ (t.digits ≡ library.digits_eight))
        × (library.validate_custom t code secret now ≡ ok true)
        × (15 ≤ t.period)
        × (t.period ≤ 60)
        × (t.skew ≤ 2)
  accepted_code config t secret code now made h =
      let (a, b, c, d) =
        check_config_inv (with_defaults library config) t (new_totp_inv config t made) in
      let (e, f, g) = validate_inv t secret code now h in
      (all_digits_sound code f, eq_ℤ_sound _ _ e, six_or_eight t.digits a, g, b, c, d)
