-- ===== src/Web/Headers.antt =====
-- The middleware of web/headers.go.
use gouterstellar_platform.Base.{
  if◌then◌else◌, Result, ok, err, ◌>>=◌, length, ℕ, zero, suc, ◌-◌, Bool, true, false, Option, none,
  some, [], ◌∷◌, ◌++◌,
}
use gouterstellar_platform.Base.Int.{ℤ, pos, negsuc, ltb_ℤ}
use gouterstellar_platform.Text.{Bytes, codes, is_empty}
use gouterstellar_platform.Text.Base64.{encode}
use gouterstellar_platform.Text.Prefix.{has_prefix}
use gouterstellar_platform.Web.Requests.{limited, Writer, set_header, http_error, Handler}

abbrev pub default_content_security_policy : Bytes
default_content_security_policy =
    codes
      "default-src 'self'; script-src 'self' 'nonce-{nonce}'; style-src 'self'; img-src 'self' data:; connect-src 'self'; form-action 'self'; frame-ancestors 'none'; base-uri 'none'"

pub record SecurityHeadersConfig : Type 0 where
  pub content_security_policy : Bytes
  pub permissions_policy : Bytes
  pub hsts : Bool

-- `strings.ReplaceAll` for a text to replace that is not empty; the number counts the bytes of the
-- last occurrence that are still to be passed over.
unfoldable pub replace_all : Bytes → Bytes → ℕ → Bytes → Bytes
replace_all old new k [] = []
replace_all old new (suc k) (c ∷ s) = replace_all old new k s
replace_all old new zero (c ∷ s) = elim (has_prefix (c ∷ s) old) [
  | true ↦ new ++ replace_all old new (length old - 1) s
  | false ↦ c ∷ replace_all old new zero s
]

-- The nonce of 18 random bytes. `random` is what `rand.Read` puts into a buffer, or its error.
unfoldable pub new_nonce : {E : Type 0} → (ℕ → Result E Bytes) → Result E Bytes
new_nonce random = do value ← random 18; ok (encode value)

unfoldable pub with_default_policies : SecurityHeadersConfig → SecurityHeadersConfig
with_default_policies config = record config {
  content_security_policy =
      if is_empty config.content_security_policy
      then default_content_security_policy
      else config.content_security_policy;
  permissions_policy =
      if is_empty config.permissions_policy
      then codes "camera=(), microphone=(), geolocation=()"
      else config.permissions_policy;
}

-- The calls of `Set`.
unfoldable pub set_policies : SecurityHeadersConfig → Bytes → Writer → Writer
set_policies config nonce w =
    let csp = replace_all (codes "{nonce}") nonce 0 config.content_security_policy in
    let w = set_header w (codes "Content-Security-Policy") csp in
    let w = set_header w (codes "Permissions-Policy") config.permissions_policy in
    let w = set_header w (codes "Referrer-Policy") (codes "no-referrer") in
    let w = set_header w (codes "X-Content-Type-Options") (codes "nosniff") in
    let w = set_header w (codes "X-Frame-Options") (codes "DENY") in
    let w = set_header w (codes "Cross-Origin-Opener-Policy") (codes "same-origin") in
    if config.hsts
    then set_header w (codes "Strict-Transport-Security")
        (codes "max-age=31536000; includeSubDomains")
    else w

-- `CSPNonce`.
unfoldable pub csp_nonce : Option Bytes → Bytes
csp_nonce none = []
csp_nonce (some nonce) = nonce

module _ {X A : Type 0} where
  unfoldable pub security_headers :
      {E : Type 0} → SecurityHeadersConfig → (ℕ → Result E Bytes) → Handler X A → Handler X A
  security_headers config random next r w = elim (new_nonce random) [
    | err e ↦ http_error w 500 (codes "Internal Server Error")
    | ok nonce ↦
        next (record r { nonce = some nonce }) (set_policies (with_default_policies config) nonce w)
  ]

  unfoldable pub no_store : Handler X A → Handler X A
  no_store next r w = next r (set_header w (codes "Cache-Control") (codes "no-store"))

  -- The inner handler of `MaxBodyBytes`, for a limit that is positive.
  unfoldable pub bounded : ℕ → Handler X A → Handler X A
  bounded limit next r w =
      if ltb_ℤ (pos limit) r.content_length
      then http_error w 413 (codes "Request Entity Too Large")
      else next (record r { body = limited limit r.body }) w

  -- `none` is the panic at setup.
  unfoldable pub max_body_bytes : ℤ → Option (Handler X A → Handler X A)
  max_body_bytes (pos zero) = none
  max_body_bytes (pos (suc n)) = some (bounded (suc n))
  max_body_bytes (negsuc n) = none
