-- ===== src/Auth/Jwt/Tests.antt =====
-- A library that knows one token.
use gouterstellar_platform.Base.{
  ltb, leb, ◌==◌, Result, ok, err, ℕ, zero, suc, ◌+◌, ◌*◌, ◌≤◌, ◌<◌, ◌≡◌, refl, sym, subst, Bool,
  true, false, ◌&&◌, some, [], ◌∷◌, arith,
}
use mathlib.Core.Option.{some-injective}
use gouterstellar_platform.Base.Int.{ℤ, pos, negsuc}
use gouterstellar_platform.Text.{Bytes, codes, is_empty, text_eq, text_eq_iff, contains}
use gouterstellar_platform.Auth.Jwt.{
  JwtConfig, Jwts, Claims, JwtLibrary, ParserOptions, new_jwts, issue, verify, check_lifetime,
  check_claims, issued_claims, parser_options, is_fractional, add_duration, numeric_date, second,
  lifetime_precision,
}
use gouterstellar_platform.Auth.Jwt.Window.{IsLibrary, Accepted, accepted_window, verify-issue}

secret : ℕ → Bytes
secret zero = []
secret (suc n) = 7 ∷ secret n

abbrev config : JwtConfig
config = record {
  issuer = codes "i";
  audience = codes "a";
  secret = secret 32;
  lifetime = pos (600 * second);
  leeway = pos 0;
}

abbrev jwts : Jwts
jwts = record {
  issuer = codes "i";
  audience = codes "a";
  secret = secret 32;
  lifetime = pos (600 * second);
  leeway = pos 0;
}

made : new_jwts {E = ℕ} config ≡ ok jwts
unfolding new_jwts is_fractional secret
made = refl

fraction : new_jwts {E = ℕ} (record config { lifetime = pos 1500000000 }) ≡ err lifetime_precision
unfolding new_jwts is_fractional secret
fraction = refl

abbrev now : ℕ
now = 5 * second + 3

abbrev claims : Claims
claims = issued_claims jwts now (codes "u") (codes "admin" ∷ [])

abbrev is_zero : ℤ → Bool
is_zero (pos n) = n == 0
is_zero (negsuc n) = false

-- The options for which it knows that its token is valid.
good : ParserOptions → Bool
good o =
    text_eq o.issuer (codes "i")
    && text_eq o.audience (codes "a")
    && ltb o.now (605 * second)
    && leb (5 * second) o.now
    && is_zero o.leeway

answer : Bool → Result ℕ (Bool × Claims)
answer true = ok (true, claims)
answer false = err 1

abbrev library : JwtLibrary ℕ
library = record { sign = λ s c. ok (codes "t"); parse = λ o t. answer (good o) }

answer_inv : (b : Bool) (c : Claims) → answer b ≡ ok (true, c) → (b ≡ true) × (claims ≡ c)
unfolding answer
answer_inv true c h = (refl, cc h)
answer_inv false c h = cc h

same_audience : (s : Bytes) → s ≡ codes "a" → contains (codes "a" ∷ []) s ≡ true
unfolding contains text_eq
same_audience s e = subst (λ t. contains (codes "a" ∷ []) t ≡ true) (sym e) refl

known_dates :
    (leeway : ℤ) (now : ℕ)
    → is_zero leeway ≡ true
    → ltb now (605 * second) ≡ true
    → leb (5 * second) now ≡ true
    → (now < add_duration (605 * second) leeway) × (5 * second ≤ add_duration now leeway)
unfolding add_duration
known_dates (pos n) now z l g = ground arith
known_dates (negsuc n) now z l g = cc z

good_parts :
    (o : ParserOptions)
    → good o ≡ true
    → (text_eq o.issuer (codes "i") ≡ true)
      × (text_eq o.audience (codes "a") ≡ true)
      × (ltb o.now (605 * second) ≡ true)
      × (leb (5 * second) o.now ≡ true)
      × (is_zero o.leeway ≡ true)
unfolding good
good_parts o h = ground arith

good-Accepted : (o : ParserOptions) → good o ≡ true → Accepted o claims
unfolding issued_claims numeric_date add_duration
good-Accepted o h =
    let (a, b, l, g, z) = good_parts o h in
    let (x, y) = known_dates o.leeway o.now z l g in
    record {
      same_issuer = sym ((text_eq_iff o.issuer (codes "i")).0 a);
      in_audience = same_audience o.audience ((text_eq_iff o.audience (codes "a")).0 b);
      not_expired = λ t e. subst (λ t. o.now < add_duration t o.leeway) (some-injective _ _ e) x;
      was_issued = λ t v e. subst (λ t. t ≤ add_duration o.now o.leeway) (some-injective _ _ e) y;
    }

library-IsLibrary : IsLibrary library
library-IsLibrary o encoded c h =
    let (g, e) = answer_inv (good o) c h in subst (Accepted o) e (good-Accepted o g)

verified : verify library jwts (7 * second) (codes "t") ≡ ok claims
unfolding verify check_claims check_lifetime parser_options issued_claims numeric_date add_duration
    good answer text_eq
verified = refl

accepted_window_example :
    (codes "i" ≡ codes "i")
    × (contains claims.audience (codes "a") ≡ true)
    × (is_empty (codes "u") ≡ false)
    × (s : ℕ) × (t : ℕ) × (claims.issued_at ≡ some s)
    × (claims.expires_at ≡ some t)
    × (s < t)
    × (t ≤ s + 900 * second)
    × (s ≤ 7 * second + 60 * second)
    × (7 * second < s + 960 * second)
unfolding issued_claims
accepted_window_example =
    accepted_window library config jwts (7 * second) (codes "t") claims library-IsLibrary made
      verified

signed : issue library jwts now (codes "u") (codes "admin" ∷ []) ≡ ok (codes "t")
unfolding issue
signed = refl

read_back : library.parse (parser_options jwts (7 * second)) (codes "t") ≡ ok (true, claims)
unfolding good answer text_eq parser_options
read_back = refl

verify-issue_example : verify library jwts (7 * second) (codes "t") ≡ ok claims
verify-issue_example =
    verify-issue library config jwts now (7 * second) (codes "u") (codes "admin" ∷ []) (codes "t")
      made signed read_back
