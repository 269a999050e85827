-- ===== src/Auth/Tokens/Tests.antt =====
-- Tokens from a source of zero bytes.
use gouterstellar_platform.Base.{
  Result, ok, err, length, All, ℕ, zero, suc, ◌≡◌, refl, ap, [], ◌∷◌, ◌++◌, arith,
}
use gouterstellar_platform.Text.{Bytes, codes}
use gouterstellar_platform.Text.Base64.{IsByte, encode, symbol}
use gouterstellar_platform.Auth.Tokens.{
  TokenHasher, bad_prefix, generate_failed, is_unreserved, all_unreserved, valid_token_prefix,
  new_token_plaintext, new_token, new_token_hasher, new_keyed_token,
}
use gouterstellar_platform.Auth.Tokens.Plaintext.{new_token_plaintext-inj}

zeros : ℕ → Bytes
zeros zero = []
zeros (suc n) = 0 ∷ zeros n

length-zeros : (n : ℕ) → length (zeros n) ≡ n
unfolding zeros
length-zeros zero = refl
length-zeros (suc n) = ap suc (length-zeros n)

abbrev random : ℕ → Result ℕ Bytes
random n = ok (zeros n)

abbrev text : Bytes
text = codes "reset_AAAAAAAAAAAAAAAAAAAAAAAAAAAAAAAAAAAAAAAAAAA"

made : new_token_plaintext random (codes "reset_") ≡ ok text
unfolding new_token_plaintext valid_token_prefix all_unreserved is_unreserved zeros encode symbol
made = refl

refused : new_token_plaintext random (codes "a b") ≡ err bad_prefix
unfolding new_token_plaintext valid_token_prefix all_unreserved is_unreserved
refused = refl

source_fails : new_token {E = ℕ} (λ s. s) (λ n. err 5) (codes "p") ≡ err (generate_failed 5)
unfolding new_token new_token_plaintext valid_token_prefix all_unreserved is_unreserved
source_fails = refl

fills : (n : ℕ) (bytes : Bytes) → random n ≡ ok bytes → length bytes ≡ n
fills n bytes e = ground (arith, length-zeros n)

zeros-IsByte : (n : ℕ) → All IsByte (zeros n)
unfolding zeros
zeros-IsByte zero = tt
zeros-IsByte (suc n) = (omega arith, zeros-IsByte n)

new_token_plaintext-inj_example : zeros 32 ≡ zeros 32
new_token_plaintext-inj_example =
    new_token_plaintext-inj random random (codes "reset_") text (zeros 32) (zeros 32) refl refl
      (zeros-IsByte 32) (zeros-IsByte 32) made made

keyed :
    (h : TokenHasher)
    → new_keyed_token (λ k t. k ++ t) h random (codes "reset_")
      ≡ ok (record { plaintext = text; digest = h.key ++ text })
unfolding new_keyed_token new_token_plaintext valid_token_prefix all_unreserved is_unreserved zeros
    encode symbol
keyed h = refl

hasher : new_token_hasher {E = ℕ} (zeros 32) ≡ ok (record { key = zeros 32 })
unfolding new_token_hasher zeros
hasher = refl
