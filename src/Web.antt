-- ===== src/Web.antt =====
-- The package web: security headers and body bounds (web/headers.go), strict JSON bodies
-- (web/json.go), and the protection against forged requests (web/csrf.go).
mod Requests
mod Headers
mod Json
mod Csrf
pub mod Hardening
pub mod Bodies
unfoldable pub use Json.*
unfoldable pub use Csrf.*
unfoldable pub use Requests.*
unfoldable pub use Headers.*
pub mod Tests
