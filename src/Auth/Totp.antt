-- ===== src/Auth/Totp.antt =====
-- auth/totp.go. The library otp, which has the cryptography, is an interface.
mod Defs
unfoldable pub use Defs.*
pub mod Codes
pub mod Tests
