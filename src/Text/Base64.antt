-- ===== src/Text/Base64.antt =====
-- `base64.RawURLEncoding.EncodeToString`, and a decoder of what it writes.
use gouterstellar_platform.Base.{
  ltb, leb, ◌==◌, if◌then◌else◌, length, All, ℕ, ◌+◌, ◌-◌, ◌*◌, ◌/◌, ◌%◌, ◌<◌, ◌≡◌, refl, sym, ap,
  ◌∙◌, [], ◌∷◌, arith,
}
use gouterstellar_platform.Text.Defs.{Bytes, codes}

abbrev pub IsByte : ℕ → Type 0
IsByte b = b < 256

-- The alphabet: upper case, lower case, digits, '-' and '_'.
unfoldable pub symbol : ℕ → ℕ
symbol n =
    if ltb n 26
    then b'A' + n
    else if ltb n 52
    then b'a' + (n - 26)
    else if ltb n 62
    then b'0' + (n - 52)
    else if n == 62
    then b'-'
    else b'_'

unfoldable pub encode : Bytes → Bytes
encode [] = []
encode (a ∷ []) = symbol (a / 4) ∷ symbol (a % 4 * 16) ∷ []
encode (a ∷ b ∷ []) = symbol (a / 4) ∷ symbol (a % 4 * 16 + b / 16) ∷ symbol (b % 16 * 4) ∷ []
encode (a ∷ b ∷ c ∷ s) =
    symbol (a / 4)
    ∷ symbol (a % 4 * 16 + b / 16)
    ∷ symbol (b % 16 * 4 + c / 64)
    ∷ symbol (c % 64)
    ∷ encode s

value_of : ℕ → ℕ
value_of c =
    if leb b'a' c
    then c - b'a' + 26
    else if c == b'_'
    then 63
    else if leb b'A' c
    then c - b'A'
    else if leb b'0' c
    then c - b'0' + 52
    else 62

decode : Bytes → Bytes
decode (w ∷ x ∷ y ∷ z ∷ s) =
    (value_of w * 4 + value_of x / 16)
    ∷ (value_of x % 16 * 16 + value_of y / 4)
    ∷ (value_of y % 4 * 64 + value_of z)
    ∷ decode s
decode (w ∷ x ∷ y ∷ []) =
    (value_of w * 4 + value_of x / 16) ∷ (value_of x % 16 * 16 + value_of y / 4) ∷ []
decode (w ∷ x ∷ []) = (value_of w * 4 + value_of x / 16) ∷ []
decode _ = []

value_of-symbol : (n : ℕ) → n < 64 → value_of (symbol n) ≡ n
unfolding value_of symbol
value_of-symbol n h = ground arith

decode-encode : (s : Bytes) → All IsByte s → decode (encode s) ≡ s
unfolding decode encode
decode-encode [] h = refl
decode-encode (a ∷ []) h = ground (arith, value_of-symbol (a / 4), value_of-symbol (a % 4 * 16))
decode-encode (a ∷ b ∷ []) h = ground (
  arith,
  value_of-symbol (a / 4),
  value_of-symbol (a % 4 * 16 + b / 16),
  value_of-symbol (b % 16 * 4),
)
decode-encode (a ∷ b ∷ c ∷ s) (ha, (hb, (hc, hs))) = ground (
  arith,
  value_of-symbol (a / 4),
  value_of-symbol (a % 4 * 16 + b / 16),
  value_of-symbol (b % 16 * 4 + c / 64),
  value_of-symbol (c % 64),
  decode-encode s hs,
)

-- Different bytes are written differently.
pub encode-inj : (s t : Bytes) → All IsByte s → All IsByte t → encode s ≡ encode t → s ≡ t
encode-inj s t hs ht e = sym (decode-encode s hs) ∙ ap decode e ∙ decode-encode t ht

pub length-encode : (s : Bytes) → length (encode s) ≡ (length s * 4 + 2) / 3
unfolding encode
length-encode [] = omega arith
length-encode (a ∷ []) = omega arith
length-encode (a ∷ b ∷ []) = omega arith
length-encode (a ∷ b ∷ c ∷ s) = omega (arith, length-encode s)

encoded : encode (codes "Man") ≡ codes "TWFu"
unfolding encode symbol
encoded = refl
