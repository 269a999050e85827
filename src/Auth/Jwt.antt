-- ===== src/Auth/Jwt.antt =====
-- auth/jwt.go. The library jwt, which signs and parses, is an interface.
mod Defs
unfoldable pub use Defs.*
pub mod Window
pub mod Tests
