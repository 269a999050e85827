-- ===== src/Auth/Jwt/Window.antt =====
-- When a verified token is accepted, and that issued ones are.
use gouterstellar_platform.Base.{
  Bool-cases, ok, Result-cases, ℕ, ◌+◌, ◌*◌, ◌/◌, ◌≤◌, ◌<◌, ◌≡◌, refl, ap, subst, ◌∙◌, inl, inr,
  Bool, true, false, ◌||◌, Option, none, some, List, [], ◌∷◌, arith,
}
use gouterstellar_platform.Base.Int.{ℤ, pos, negsuc, ltb_ℤ, sub_ℕ}
use gouterstellar_platform.Text.{Bytes, is_empty, contains}
use gouterstellar_platform.Auth.Jwt.Defs.{
  JwtConfig, Jwts, Claims, JwtLibrary, ParserOptions, new_jwts, issue, verify, check_lifetime,
  check_claims, issued_claims, parser_options, is_fractional, add_duration, numeric_date, second,
  min_jwt_lifetime, max_jwt_lifetime, max_jwt_leeway,
}

-- What a valid token has passed, by the library's documentation.
pub record Accepted (o : ParserOptions) (c : Claims) : Type 0 where
  pub same_issuer : c.issuer ≡ o.issuer
  pub in_audience : contains c.audience o.audience ≡ true
  pub not_expired : (t : ℕ) → c.expires_at ≡ some t → o.now < add_duration t o.leeway
  pub was_issued :
      (t : ℕ) → o.verify_issued_at ≡ true → c.issued_at ≡ some t → t ≤ add_duration o.now o.leeway

abbrev pub IsLibrary : {E : Type 0} → JwtLibrary E → Type 0
IsLibrary library =
    (o : ParserOptions) (encoded : Bytes) (c : Claims)
    → library.parse o encoded ≡ ok (true, c)
    → Accepted o c

-- What `new_jwts` makes sure of.
record IsProfile (j : Jwts) : Type 0 where
  seconds : ℕ
  leeway : ℕ
  whole : j.lifetime ≡ pos (seconds * second)
  some_time : 1 ≤ seconds
  short : seconds ≤ 900
  grace : j.leeway ≡ pos leeway
  small : leeway ≤ 60 * second

whole_seconds :
    (l : ℤ)
    → ltb_ℤ l min_jwt_lifetime || ltb_ℤ max_jwt_lifetime l ≡ false
    → is_fractional l ≡ false
    → (n : ℕ) × (l ≡ pos (n * second)) × (1 ≤ n) × (n ≤ 900)
unfolding is_fractional
whole_seconds (pos n) h f = (n / second, ap pos (ground arith), ground arith, ground arith)
whole_seconds (negsuc n) h f = absurd (ground arith)

grace_part :
    (l : ℤ)
    → ltb_ℤ l (pos 0) || ltb_ℤ max_jwt_leeway l ≡ false
    → (n : ℕ) × (l ≡ pos n) × (n ≤ 60 * second)
grace_part (pos n) h = (n, refl, ground arith)
grace_part (negsuc n) h = absurd (ground arith)

guards :
    {E : Type 0} (config : JwtConfig) (j : Jwts)
    → new_jwts {E = E} config ≡ ok j
    → (ltb_ℤ config.lifetime min_jwt_lifetime || ltb_ℤ max_jwt_lifetime config.lifetime ≡ false)
      × (is_fractional config.lifetime ≡ false)
      × (ltb_ℤ config.leeway (pos 0) || ltb_ℤ max_jwt_leeway config.leeway ≡ false)
      × (j.lifetime ≡ config.lifetime)
      × (j.leeway ≡ config.leeway)
unfolding new_jwts
guards config j h = ground arith

new_jwts-IsProfile :
    {E : Type 0} (config : JwtConfig) (j : Jwts) → new_jwts {E = E} config ≡ ok j → IsProfile j
new_jwts-IsProfile {E} config j h =
    let (a, b, c, d, e) = guards {E = E} config j h in
    let (n, p, q, r) = whole_seconds config.lifetime a b in
    let (g, s, t) = grace_part config.leeway c in
    record {
      seconds = n;
      leeway = g;
      whole = d ∙ p;
      some_time = q;
      short = r;
      grace = e ∙ s;
      small = t;
    }

window_pos :
    (n g now s t : ℕ)
    → n ≤ 900
    → g ≤ 60 * second
    → ltb_ℤ (pos (n * second)) (sub_ℕ t s) ≡ false
    → s < t
    → now < t + g
    → s ≤ now + g
    → (t ≤ s + 900 * second) × (s ≤ now + 60 * second) × (now < s + 960 * second)
window_pos n g now s t short small h lt a b = ground arith

-- A whole number of seconds later is as many whole seconds later.
numeric_date_later : (now n : ℕ) → numeric_date (now + n * second) ≡ numeric_date now + n * second
unfolding numeric_date
numeric_date_later now n = omega arith

module _ {E : Type 0} (library : JwtLibrary E) where
  -- What a success of the test of the dates says.
  check_inv :
      (j : Jwts) (c c' : Claims) (i e : Option ℕ)
      → check_lifetime library j c i e ≡ ok c'
      → (c ≡ c')
        × (s : ℕ) × (t : ℕ) × (i ≡ some s)
        × (e ≡ some t)
        × (s < t)
        × (ltb_ℤ j.lifetime (sub_ℕ t s) ≡ false)
  unfolding check_lifetime
  check_inv j c c' none e h = cc h
  check_inv j c c' (some s) none h = cc h
  check_inv j c c' (some s) (some t) h =
      (ground arith, s, t, refl, refl, ground arith, ground arith)

  -- A success of `Verify` gives the parser's claims, and says this of them.
  record Verified (j : Jwts) (now : ℕ) (encoded : Bytes) (c : Claims) : Type 0 where
    parsed : library.parse (parser_options j now) encoded ≡ ok (true, c)
    named : is_empty c.subject ≡ false
    issued : ℕ
    expires : ℕ
    issued_eq : c.issued_at ≡ some issued
    expires_eq : c.expires_at ≡ some expires
    later : issued < expires
    within : ltb_ℤ j.lifetime (sub_ℕ expires issued) ≡ false

  check_claims_inv :
      (j : Jwts) (now : ℕ) (encoded : Bytes) (valid : Bool) (claims c : Claims)
      → library.parse (parser_options j now) encoded ≡ ok (valid, claims)
      → check_claims library j valid claims ≡ ok c
      → Verified j now encoded c
  unfolding check_claims
  check_claims_inv j now encoded false claims c e h = cc h
  check_claims_inv j now encoded true claims c e h = elim (Bool-cases (is_empty claims.subject)) [
    | inl t ↦ cc (rw (t, check_claims) at h)
    | inr f ↦
        let (p, s, t, q, r, lt, le) =
          check_inv j claims c claims.issued_at claims.expires_at (rw (f, check_claims) at h) in
        subst (Verified j now encoded) p (record {
          parsed = e;
          named = f;
          issued = s;
          expires = t;
          issued_eq = q;
          expires_eq = r;
          later = lt;
          within = le;
        })
  ]

  verify_inv :
      (j : Jwts) (now : ℕ) (encoded : Bytes) (c : Claims)
      → verify library j now encoded ≡ ok c
      → Verified j now encoded c
  unfolding verify
  verify_inv j now encoded c h =
      elim (Result-cases (library.parse (parser_options j now) encoded)) [
        | inr (x, e) ↦ cc (rw (e, verify) at h)
        | inl ((valid, claims), e) ↦
            check_claims_inv j now encoded valid claims c e (rw (e, verify) at h)
      ]

  window :
      (j : Jwts) (p : IsProfile j) (now s t : ℕ)
      → ltb_ℤ j.lifetime (sub_ℕ t s) ≡ false
      → s < t
      → now < add_duration t j.leeway
      → s ≤ add_duration now j.leeway
      → (t ≤ s + 900 * second) × (s ≤ now + 60 * second) × (now < s + 960 * second)
  unfolding add_duration
  window j p now s t h lt a b =
      window_pos p.seconds p.leeway now s t p.short p.small (rw (p.whole) at h) lt
        (subst (λ d. now < add_duration t d) p.grace a)
        (subst (λ d. s ≤ add_duration now d) p.grace b)

  -- A token that `Verify` accepts for a profile that `NewJWTs` made names the profile's issuer and
  -- audience and has a subject. It was issued at most a minute after the time of the check and less
  -- than sixteen minutes before it, and it expires later than it was issued, by at most fifteen
  -- minutes. The library is supposed to report as valid only what has passed the checks that it is
  -- asked for.
  pub accepted_window :
      (config : JwtConfig) (j : Jwts) (now : ℕ) (encoded : Bytes) (c : Claims)
      → IsLibrary library
      → new_jwts {E = E} config ≡ ok j
      → verify library j now encoded ≡ ok c
      → (c.issuer ≡ j.issuer)
        × (contains c.audience j.audience ≡ true)
        × (is_empty c.subject ≡ false)
        × (s : ℕ) × (t : ℕ) × (c.issued_at ≡ some s)
        × (c.expires_at ≡ some t)
        × (s < t)
        × (t ≤ s + 900 * second)
        × (s ≤ now + 60 * second)
        × (now < s + 960 * second)
  unfolding parser_options
  accepted_window config j now encoded c law made h =
      let v = verify_inv j now encoded c h in
      let a = law (parser_options j now) encoded c v.parsed in
      let (x, y, z) =
        window j (new_jwts-IsProfile {E = E} config j made) now v.issued v.expires v.within v.later
          (a.not_expired v.expires v.expires_eq) (a.was_issued v.issued refl v.issued_eq) in
      (
        a.same_issuer, a.in_audience, v.named, v.issued, v.expires, v.issued_eq, v.expires_eq,
        v.later, x, y, z,
      )

  check_passes :
      (j : Jwts) (p : IsProfile j) (c : Claims) (s t : ℕ)
      → t ≡ s + p.seconds * second
      → check_lifetime library j c (some s) (some t) ≡ ok c
  unfolding check_lifetime
  check_passes j p c s t e = rw (p.whole, check_lifetime) (ground (arith, p.some_time))

  issue_named :
      (j : Jwts) (now : ℕ) (subject : Bytes) (roles : List Bytes) (token : Bytes)
      → issue library j now subject roles ≡ ok token
      → is_empty subject ≡ false
  unfolding issue
  issue_named j now [] roles token h = cc h
  issue_named j now (c ∷ s) roles token h = refl

  issued_passes :
      (j : Jwts) (p : IsProfile j) (now : ℕ) (c : Claims)
      → check_lifetime library j c
          (some (numeric_date now))
          (some (numeric_date (add_duration now j.lifetime)))
        ≡ ok c
  unfolding add_duration
  issued_passes j p now c =
      check_passes j p c (numeric_date now) (numeric_date (add_duration now j.lifetime))
        (ap (λ d. numeric_date (add_duration now d)) p.whole ∙ numeric_date_later now p.seconds)

  -- A token that `Issue` makes, read by a parser that finds it valid and gives back the claims that
  -- were signed, is accepted by `Verify` with these claims.
  pub verify-issue :
      (config : JwtConfig) (j : Jwts) (now later : ℕ) (subject : Bytes) (roles : List Bytes)
      (token : Bytes)
      → new_jwts {E = E} config ≡ ok j
      → issue library j now subject roles ≡ ok token
      → library.parse (parser_options j later) token ≡ ok (true, issued_claims j now subject roles)
      → verify library j later token ≡ ok (issued_claims j now subject roles)
  unfolding verify check_claims issued_claims
  verify-issue config j now later subject roles token made h back =
      rw (back, verify, issue_named j now subject roles token h)
        (issued_passes j (new_jwts-IsProfile {E = E} config j made) now
          (issued_claims j now subject roles))
