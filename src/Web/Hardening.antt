-- ===== src/Web/Hardening.antt =====
-- What the middleware of web/headers.go leaves for the next handler.
use gouterstellar_platform.Base.{
  if◌then◌else◌, Result, ok, err, Result-cases, length, ℕ, ◌≡◌, refl, ◌⊎◌, inl, inr, false, Option,
  some, none, List, [], ◌∷◌, arith,
}
use gouterstellar_platform.Text.{Bytes, codes, text_eq, text_eq_iff, contains}
use gouterstellar_platform.Text.Base64.{encode, length-encode}
use gouterstellar_platform.Text.Dict.{Dict, lookup}
use gouterstellar_platform.Web.Requests.{
  Request, Writer, set_header, error_sent, error_headers, del_header, remove_name, Handler,
}
use gouterstellar_platform.Web.Headers.{
  SecurityHeadersConfig, replace_all, new_nonce, with_default_policies, set_policies,
  security_headers,
}

abbrev pub header : Writer → Bytes → Option Bytes
header w name = lookup w.headers name

-- The headers that `SecurityHeaders` sets whatever the configuration.
abbrev pub policy_names : List Bytes
policy_names =
    codes "Content-Security-Policy"
    ∷ codes "Permissions-Policy"
    ∷ codes "Referrer-Policy"
    ∷ codes "X-Content-Type-Options"
    ∷ codes "X-Frame-Options"
    ∷ codes "Cross-Origin-Opener-Policy"
    ∷ codes "Strict-Transport-Security"
    ∷ []

pub record IsHardened (config : SecurityHeadersConfig) (nonce : Bytes) (before after : Writer)
    : Type 0 where
  pub csp :
      header after (codes "Content-Security-Policy")
      ≡ some (replace_all (codes "{nonce}") nonce 0 config.content_security_policy)
  pub permissions : header after (codes "Permissions-Policy") ≡ some config.permissions_policy
  pub referrer : header after (codes "Referrer-Policy") ≡ some (codes "no-referrer")
  pub no_sniff : header after (codes "X-Content-Type-Options") ≡ some (codes "nosniff")
  pub no_frames : header after (codes "X-Frame-Options") ≡ some (codes "DENY")
  pub opener : header after (codes "Cross-Origin-Opener-Policy") ≡ some (codes "same-origin")
  pub transport : header after (codes "Strict-Transport-Security") ≡ (
      if config.hsts
      then some (codes "max-age=31536000; includeSubDomains")
      else header before (codes "Strict-Transport-Security"))
  pub others :
      (name : Bytes) → contains policy_names name ≡ false → header after name ≡ header before name

others_kept :
    (config : SecurityHeadersConfig) (nonce : Bytes) (w : Writer) (name : Bytes)
    → contains policy_names name ≡ false
    → header (set_policies config nonce w) name ≡ header w name
unfolding set_policies set_header lookup contains
others_kept config nonce w name h = ground arith

set_policies-IsHardened :
    (config : SecurityHeadersConfig) (nonce : Bytes) (w : Writer)
    → IsHardened config nonce w (set_policies config nonce w)
unfolding set_policies set_header lookup text_eq
set_policies-IsHardened config nonce w = record {
  csp = ground arith;
  permissions = ground arith;
  referrer = ground arith;
  no_sniff = ground arith;
  no_frames = ground arith;
  opener = ground arith;
  transport = ground arith;
  others = others_kept config nonce w;
}

-- The headers that an error of the middleware leaves: no policy is set but the one that `http.Error` sets
-- itself, and the others are as they were.
abbrev pub error_names : List Bytes
error_names = codes "Content-Length" ∷ codes "Content-Type" ∷ codes "X-Content-Type-Options" ∷ []

pub record IsErrorHeader (before after : Writer) : Type 0 where
  pub plain : header after (codes "Content-Type") ≡ some (codes "text/plain; charset=utf-8")
  pub no_sniff : header after (codes "X-Content-Type-Options") ≡ some (codes "nosniff")
  pub no_length : header after (codes "Content-Length") ≡ none
  pub others :
      (name : Bytes) → contains error_names name ≡ false → header after name ≡ header before name

lookup-remove_name :
    (d : Dict Bytes) (name other : Bytes)
    → lookup (remove_name d name) other ≡ (if text_eq name other then none else lookup d other)
unfolding lookup remove_name
lookup-remove_name [] name other = ground arith
lookup-remove_name ((n, v) ∷ d) name other = ground (
  arith,
  lookup-remove_name d name other,
  text_eq_iff n name,
  text_eq_iff n other,
  text_eq_iff name other,
)

error_others :
    (w : Writer) (name : Bytes)
    → contains error_names name ≡ false
    → header (error_headers w) name ≡ header w name
unfolding error_headers set_header del_header lookup contains
error_others w name h = ground (arith, lookup-remove_name w.headers (codes "Content-Length") name)

error_headers-IsErrorHeader : (w : Writer) → IsErrorHeader w (error_headers w)
unfolding error_headers set_header del_header lookup text_eq contains
error_headers-IsErrorHeader w = record {
  plain = ground arith;
  no_sniff = ground arith;
  no_length =
      ground
        (arith, lookup-remove_name w.headers (codes "Content-Length") (codes "Content-Length"));
  others = error_others w;
}

module _ {X A : Type 0} where
  -- Either the random source fails, and the request is answered by an internal error, with the headers
  -- that `http.Error` itself sets and the others as they were, and nothing handed on. Or the source gives
  -- 18 bytes, and the next handler gets the request with their base64url encoding, of 24 characters, as
  -- the nonce in its context, and a response with all the policies: the same nonce stands in the content
  -- security policy wherever it says "{nonce}", and no header but theirs is changed. The source is
  -- supposed to fill the buffer that it is given.
  pub security_headers_lem :
      {E : Type 0} (config : SecurityHeadersConfig) (random : ℕ → Result E Bytes)
      (next : Handler X A) (r : Request X) (w : Writer)
      → ((n : ℕ) (s : Bytes) → random n ≡ ok s → length s ≡ n)
      → ((e : E) × (after : Writer) × (random 18 ≡ err e)
          × IsErrorHeader w after
          × (security_headers config random next r w
              ≡ error_sent after 500 (codes "Internal Server Error")))
        ⊎ ((value : Bytes) × (nonce : Bytes) × (after : Writer) × (random 18 ≡ ok value)
            × (nonce ≡ encode value)
            × (length nonce ≡ 24)
            × IsHardened (with_default_policies config) nonce w after
            × (security_headers config random next r w
                ≡ next (record r { nonce = some nonce }) after))
  unfolding security_headers new_nonce
  security_headers_lem config random next r w fills = elim (Result-cases (random 18)) [
    | inr (e, f) ↦ inl (
      e,
      error_headers w,
      f,
      error_headers-IsErrorHeader w,
      rw (f, security_headers, new_nonce) refl,
    )
    | inl (s, f) ↦ inr (
      s,
      encode s,
      set_policies (with_default_policies config) (encode s) w,
      f,
      refl,
      omega (arith, length-encode s, fills 18 s f),
      set_policies-IsHardened (with_default_policies config) (encode s) w,
      rw (f, security_headers, new_nonce) refl,
    )
  ]
