-- ===== src/Auth/Passwords.antt =====
-- auth/password.go: the password policy and the limits on Argon2id costs. The library argon2id is a
-- parameter, `Argon`. Go's int is a signed integer here; the code does not add to it.
pub mod Params
mod Defs
pub mod Verify
pub mod RoundTrip
pub mod Policy
pub mod Tests
unfoldable pub use Defs.*
