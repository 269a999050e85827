-- ===== src/Auth/Tokens/Plaintext.antt =====
-- What a token's text is made of.
use gouterstellar_platform.Base.{
  Result, ok, Result-cases, length, length-append, All, All-append, ℕ, ◌+◌, ◌≤◌, ◌≡◌, refl, sym, ap,
  subst, ◌∙◌, ◌↔◌, ◌⊎◌, inl, inr, true, [], ◌∷◌, ◌++◌, arith,
}
use gouterstellar_platform.Text.{Bytes}
use gouterstellar_platform.Text.Base64.{IsByte, encode, encode-inj, length-encode, symbol}
use gouterstellar_platform.Auth.Tokens.Defs.{
  TokenHasher, TokenPair, is_unreserved, all_unreserved, valid_token_prefix, new_token_plaintext,
  default_token_bytes, max_token_prefix_bytes, new_token_hasher, new_keyed_token,
}

-- A letter, a digit, or one of "-._~".
abbrev pub IsUnreserved : ℕ → Type 0
IsUnreserved c =
    ((b'a' ≤ c) × (c ≤ b'z'))
    ⊎ ((b'A' ≤ c) × (c ≤ b'Z'))
    ⊎ ((b'0' ≤ c) × (c ≤ b'9'))
    ⊎ (c ≡ b'-')
    ⊎ (c ≡ b'.')
    ⊎ (c ≡ b'_')
    ⊎ (c ≡ b'~')

is_unreserved_sound : (c : ℕ) → is_unreserved c ≡ true → IsUnreserved c
unfolding is_unreserved
is_unreserved_sound c h = ground arith

all_unreserved_sound : (s : Bytes) → all_unreserved s ≡ true → All IsUnreserved s
unfolding all_unreserved
all_unreserved_sound [] h = tt
all_unreserved_sound (c ∷ s) h =
    (is_unreserved_sound c (ground arith), all_unreserved_sound s (ground arith))

is_unreserved_complete : (c : ℕ) → IsUnreserved c → is_unreserved c ≡ true
unfolding is_unreserved
is_unreserved_complete c h = ground arith

all_unreserved_complete : (s : Bytes) → All IsUnreserved s → all_unreserved s ≡ true
unfolding all_unreserved
all_unreserved_complete [] h = refl
all_unreserved_complete (c ∷ s) h =
    ground (arith, is_unreserved_complete c h.0, all_unreserved_complete s h.1)

symbol-IsUnreserved : (n : ℕ) → IsUnreserved (symbol n)
unfolding symbol
symbol-IsUnreserved n = ground arith

encode-IsUnreserved : (s : Bytes) → All IsUnreserved (encode s)
unfolding encode
encode-IsUnreserved [] = tt
encode-IsUnreserved (a ∷ []) = (symbol-IsUnreserved _, (symbol-IsUnreserved _, tt))
encode-IsUnreserved (a ∷ b ∷ []) =
    (symbol-IsUnreserved _, (symbol-IsUnreserved _, (symbol-IsUnreserved _, tt)))
encode-IsUnreserved (a ∷ b ∷ c ∷ s) = (
  symbol-IsUnreserved _,
  (symbol-IsUnreserved _, (symbol-IsUnreserved _, (symbol-IsUnreserved _, encode-IsUnreserved s))),
)

module _ {E : Type 0} (random : ℕ → Result E Bytes) where
  plaintext_parts :
      (prefix text : Bytes)
      → new_token_plaintext random prefix ≡ ok text
      → (bytes : Bytes) × (random default_token_bytes ≡ ok bytes)
        × (length prefix ≤ max_token_prefix_bytes)
        × (all_unreserved prefix ≡ true)
        × (text ≡ prefix ++ encode bytes)
  unfolding new_token_plaintext valid_token_prefix
  plaintext_parts prefix text h = elim (Result-cases (random default_token_bytes)) [
    | inl (bytes, e) ↦ (bytes, e, ground (arith, e), ground (arith, e), ground (arith, e))
    | inr (x, e) ↦ absurd (ground (arith, e))
  ]

  -- A token consists of unreserved characters only, and is the prefix and 43 more of them, at most
  -- 107 in all, if the random source fills its buffer.
  pub new_token_plaintext-IsUnreserved :
      (prefix text : Bytes)
      → ((n : ℕ) (bytes : Bytes) → random n ≡ ok bytes → length bytes ≡ n)
      → new_token_plaintext random prefix ≡ ok text
      → All IsUnreserved text × (length text ≡ length prefix + 43) × (length text ≤ 107)
  new_token_plaintext-IsUnreserved prefix text fills h =
      let (bytes, e, short, clean, same) = plaintext_parts prefix text h in
      let size : length text ≡ length prefix + 43 = omega (
        arith,
        ap length same,
        length-append prefix (encode bytes),
        length-encode bytes,
        fills default_token_bytes bytes e,
      ) in
      (
        subst (All IsUnreserved) (sym same) (
            All-append IsUnreserved prefix (encode bytes) (all_unreserved_sound prefix clean)
              (encode-IsUnreserved bytes)),
        size,
        omega arith,
      )

append-cancel : (p s t : Bytes) → p ++ s ≡ p ++ t → s ≡ t
append-cancel [] s t e = e
append-cancel (a ∷ p) s t e = append-cancel p s t (cc)

-- Two tokens with one prefix and the same text come from the same random bytes: the text keeps all
-- of their entropy.
pub new_token_plaintext-inj :
    {E : Type 0} (random other : ℕ → Result E Bytes) (prefix text bytes others : Bytes)
    → random default_token_bytes ≡ ok bytes
    → other default_token_bytes ≡ ok others
    → All IsByte bytes
    → All IsByte others
    → new_token_plaintext random prefix ≡ ok text
    → new_token_plaintext other prefix ≡ ok text
    → bytes ≡ others
new_token_plaintext-inj random other prefix text bytes others e f hb ho g h =
    let (b, e', _, _, same) = plaintext_parts random prefix text g in
    let (c, f', _, _, same') = plaintext_parts other prefix text h in
    let left : b ≡ bytes = ground (arith, e, e') in
    let right : c ≡ others = ground (arith, f, f') in
    encode-inj bytes others hb ho (
      append-cancel prefix (encode bytes) (encode others) (
        ap (λ x. prefix ++ encode x) (sym left)
        ∙ sym same
        ∙ same'
        ∙ ap (λ x. prefix ++ encode x) right))

-- A prefix is refused exactly when it is longer than 64 bytes or holds another character.
pub valid_token_prefix_iff :
    (prefix : Bytes)
    → (valid_token_prefix prefix ≡ true)
      ↔ ((length prefix ≤ max_token_prefix_bytes) × All IsUnreserved prefix)
unfolding valid_token_prefix
valid_token_prefix_iff prefix = (forth, back)
  where
    forth :
        valid_token_prefix prefix ≡ true
        → (length prefix ≤ max_token_prefix_bytes) × All IsUnreserved prefix
    forth h = (ground arith, all_unreserved_sound prefix (ground arith))

    back :
        (length prefix ≤ max_token_prefix_bytes) × All IsUnreserved prefix
        → valid_token_prefix prefix ≡ true
    back h = ground (arith, all_unreserved_complete prefix h.1)

-- What is to be stored of a keyed token is the digest of its text, under a key of 32 bytes or more.
pub new_keyed_token_digest :
    {E : Type 0} (hmac : Bytes → Bytes → Bytes) (random : ℕ → Result E Bytes)
    (pepper prefix : Bytes) (h : TokenHasher) (pair : TokenPair)
    → new_token_hasher {E = E} pepper ≡ ok h
    → new_keyed_token hmac h random prefix ≡ ok pair
    → (32 ≤ length pepper)
      × (pair.digest ≡ hmac pepper pair.plaintext)
      × (new_token_plaintext random prefix ≡ ok pair.plaintext)
unfolding new_token_hasher new_keyed_token
new_keyed_token_digest hmac random pepper prefix h pair e f = ground arith
