-- ===== src/Auth/Tokens.antt =====
-- auth/token.go: opaque bearer tokens. Random bytes and the digests SHA-256 and HMAC-SHA-256 are
-- parameters.
mod Defs
pub mod Plaintext
pub mod Tests
unfoldable pub use Defs.*
