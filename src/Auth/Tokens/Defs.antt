-- ===== src/Auth/Tokens/Defs.antt =====
-- Prefixes, tokens and their digests.
use gouterstellar_platform.Base.{
  ltb, leb, ◌==◌, if◌then◌else◌, Result, ok, ◌>>=◌, ◌>>◌, fail_if, map_err, length, ℕ, Bool, true,
  false, not, ◌&&◌, ◌||◌, [], ◌∷◌, ◌++◌,
}
use gouterstellar_platform.Text.{Bytes}
use gouterstellar_platform.Text.Base64.{encode}

abbrev pub default_token_bytes : ℕ
default_token_bytes = 32

abbrev pub max_token_prefix_bytes : ℕ
max_token_prefix_bytes = 64

pub record TokenPair : Type 0 where
  pub plaintext : Bytes
  pub digest : Bytes

pub data TokenError (E : Type 0) : Type 0 where
  bad_prefix short_pepper : TokenError E
  generate_failed : E → TokenError E

-- RFC 3986's unreserved characters.
unfoldable pub is_unreserved : ℕ → Bool
is_unreserved c =
    (leb b'a' c && leb c b'z')
    || (leb b'A' c && leb c b'Z')
    || (leb b'0' c && leb c b'9')
    || c == b'-'
    || c == b'.'
    || c == b'_'
    || c == b'~'

unfoldable pub all_unreserved : Bytes → Bool
all_unreserved [] = true
all_unreserved (c ∷ s) = is_unreserved c && all_unreserved s

unfoldable pub valid_token_prefix : Bytes → Bool
valid_token_prefix prefix =
    if ltb max_token_prefix_bytes (length prefix) then false else all_unreserved prefix

pub record TokenHasher : Type 0 where
  pub key : Bytes

module _ {E : Type 0} where
  -- `random` is what `rand.Read` puts into a buffer of the given length, or its error.
  unfoldable pub new_token_plaintext : (ℕ → Result E Bytes) → Bytes → Result (TokenError E) Bytes
  new_token_plaintext random prefix = do
    fail_if (not (valid_token_prefix prefix)) bad_prefix
    bytes ← map_err generate_failed (random default_token_bytes)
    ok (prefix ++ encode bytes)

  -- `NewToken`, over SHA-256.
  unfoldable pub new_token :
      (Bytes → Bytes) → (ℕ → Result E Bytes) → Bytes → Result (TokenError E) TokenPair
  new_token sha256 random prefix = do
    plaintext ← new_token_plaintext random prefix
    ok (record { plaintext = plaintext; digest = sha256 plaintext })

  unfoldable pub new_token_hasher : Bytes → Result (TokenError E) TokenHasher
  new_token_hasher pepper = do
    fail_if (ltb (length pepper) 32) short_pepper
    ok (record { key = pepper })

  -- `TokenHasher.NewToken`, over HMAC-SHA-256 with the key first.
  unfoldable pub new_keyed_token :
      (Bytes → Bytes → Bytes)
      → TokenHasher
      → (ℕ → Result E Bytes)
      → Bytes
      → Result (TokenError E) TokenPair
  new_keyed_token hmac h random prefix = do
    plaintext ← new_token_plaintext random prefix
    ok (record { plaintext = plaintext; digest = hmac h.key plaintext })
