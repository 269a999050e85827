-- ===== src/Text.antt =====
-- Go strings and what the modules use of Go's package strings and unicode/utf8. A string is the
-- list of its bytes, so `length` is Go's `len`, and no assumption of valid UTF-8 is made.
mod Defs
pub mod Trim
pub mod Runes
pub mod Split
pub mod Fields
pub mod Dict
pub mod Prefix
pub mod Base64
unfoldable pub use Defs.*
