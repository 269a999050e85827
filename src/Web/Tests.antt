-- ===== src/Web/Tests.antt =====
-- Requests and responses at concrete values.
use gouterstellar_platform.Base.{
  Result, ok, err, length, ℕ, zero, suc, ◌≡◌, refl, ap, ◌↔◌, ◌⊎◌, Bool, true, none, some, List, [],
  ◌∷◌, ◌++◌, arith,
}
use gouterstellar_platform.Base.Int.{ℤ, pos, negsuc, ◌≤ℤ◌}
use gouterstellar_platform.Text.{Bytes, codes}
use gouterstellar_platform.Text.Base64.{encode}
use gouterstellar_platform.Text.Prefix.{has_prefix}
use gouterstellar_platform.Web.{
  Body, raw, read_all, Request, Writer, answered, error_sent, http_error, Handler,
  SecurityHeadersConfig, replace_all, with_default_policies, security_headers, max_body_bytes,
  bounded, csp_nonce, Decoder, DecodeFailure, eof, decode_json, finish, trailing,
  multiple_json_values, CsrfOption, field_option, error_option, new_csrf,
}
use gouterstellar_platform.Web.Hardening.{IsHardened, IsErrorHeader, security_headers_lem}
use gouterstellar_platform.Web.Bodies.{IsBounded, IsAccepted, max_body_bytes_lem, decode_json_iff}

zeros : ℕ → Bytes
zeros zero = []
zeros (suc n) = 0 ∷ zeros n

length-zeros : (n : ℕ) → length (zeros n) ≡ n
unfolding zeros
length-zeros zero = refl
length-zeros (suc n) = ap suc (length-zeros n)

abbrev random : ℕ → Result ℕ Bytes
random n = ok (zeros n)

fills : (n : ℕ) (s : Bytes) → random n ≡ ok s → length s ≡ n
fills n s e = ground (arith, length-zeros n)

abbrev config : SecurityHeadersConfig
config = record { content_security_policy = []; permissions_policy = []; hsts = true }

-- The nonce, whatever it is, stands in the source of scripts.
default_policy :
    (nonce : Bytes)
    → replace_all (codes "{nonce}") nonce 0 (with_default_policies config).content_security_policy
      ≡ codes "default-src 'self'; script-src 'self' 'nonce-"
        ++ (nonce
            ++ codes
                "'; style-src 'self'; img-src 'self' data:; connect-src 'self'; form-action 'self'; frame-ancestors 'none'; base-uri 'none'")
unfolding replace_all has_prefix with_default_policies
default_policy nonce = refl

abbrev request : Request (Unit {0})
request = record { nonce = none; content_length = pos 3; body = raw (codes "abc"); rest = tt }

abbrev writer : Writer
writer = record { headers = [] }

-- A page that shows its nonce and reads its body.
abbrev handler : Handler (Unit {0}) (Bytes × Bytes × Bool)
handler r w = let (s, cut) = read_all r.body in answered (csp_nonce r.nonce, s, cut)

cut_short : max_body_bytes (pos 2) ≡ some (bounded {X = Unit {0}} {A = Bytes × Bytes × Bool} 2)
unfolding max_body_bytes
cut_short = refl

read_cut :
    bounded 2 handler (record request { content_length = negsuc 0 }) writer
    ≡ answered ([], codes "ab", true)
unfolding bounded read_all csp_nonce
read_cut = refl

declared :
    bounded 2 handler request writer ≡ http_error writer 413 (codes "Request Entity Too Large")
unfolding bounded
declared = refl

max_body_bytes_lem_example :
    ((max_body_bytes {X = Unit {0}} {A = Bytes × Bytes × Bool} (pos 2) ≡ none) × (pos 2 ≤ℤ pos 0))
    ⊎ ((n : ℕ) × (middleware : Handler (Unit {0}) (Bytes × Bytes × Bool)
          → Handler (Unit {0}) (Bytes × Bytes × Bool))
        × (pos 2 ≡ pos (suc n))
        × (max_body_bytes (pos 2) ≡ some middleware)
        × (((pos (suc (suc n)) ≤ℤ pos 3)
              × (middleware handler request writer
                  ≡ http_error writer 413 (codes "Request Entity Too Large")))
            ⊎ ((body : Body) × (pos 3 ≤ℤ pos (suc n))
                × IsBounded (suc n) (raw (codes "abc")) body
                × (middleware handler request writer
                    ≡ handler (record request { body = body }) writer))))
max_body_bytes_lem_example = max_body_bytes_lem (pos 2) handler request writer

security_headers_lem_example :
    ((e : ℕ) × (after : Writer) × (random 18 ≡ err e)
      × IsErrorHeader writer after
      × (security_headers config random handler request writer
          ≡ error_sent after 500 (codes "Internal Server Error")))
    ⊎ ((value : Bytes) × (nonce : Bytes) × (after : Writer) × (random 18 ≡ ok value)
        × (nonce ≡ encode value)
        × (length nonce ≡ 24)
        × IsHardened (with_default_policies config) nonce writer after
        × (security_headers config random handler request writer
            ≡ handler (record request { nonce = some nonce }) after))
security_headers_lem_example = security_headers_lem config random handler request writer fills

-- A decoder whose values are bytes.
next_byte : Bytes → Result (DecodeFailure ℕ) ℕ × Bytes
next_byte [] = (err eof, [])
next_byte (c ∷ s) = (ok c, s)

next_raw : Bytes → Result (DecodeFailure ℕ) (Unit {0}) × Bytes
next_raw [] = (err eof, [])
next_raw (c ∷ s) = (ok tt, s)

abbrev decoder : Decoder Bytes ℕ ℕ
decoder = record {
  start = λ b. (read_all b).0;
  disallow_unknown_fields = λ s. s;
  decode = next_byte;
  decode_raw = next_raw;
}

two_values :
    (decode_json decoder true (some (raw (codes "ab"))) (pos 9)).0 ≡ err multiple_json_values
unfolding decode_json finish trailing next_byte next_raw read_all
two_values = refl

decode_json_iff_example :
    ((decode_json decoder true (some (raw (codes "a"))) (pos 9)).0 ≡ ok b'a')
    ↔ IsAccepted decoder true (some (raw (codes "a"))) (pos 9) b'a'
decode_json_iff_example = decode_json_iff decoder true (some (raw (codes "a"))) (pos 9) b'a'

-- Only the field's name and the error handler count.
csrf_options :
    (key cookie : Bytes) (age : ℤ) (insecure : Bool)
    → new_csrf {E = ℕ}
        (λ (os : List (CsrfOption ℕ)). os)
        (record {
          auth_key = key;
          cookie_name = cookie;
          field_name = [];
          max_age = age;
          allow_insecure_cookies = insecure;
          error_handler = some 7;
        })
      ≡ ok (field_option (codes "csrf_token") ∷ error_option 7 ∷ [])
unfolding new_csrf
csrf_options key cookie age insecure = refl
