-- ===== src/I18n.antt =====
-- i18n/i18n.go: message compilation and rendering, and the catalog of locales. The formatting of
-- package fmt is a parameter, and the reading of files an interface.
mod Placeholders
mod Signature
mod Message
mod Catalog
pub mod Rendering
mod Files
pub mod Contract
pub mod Loading
pub mod Compiling
pub mod Tests
unfoldable pub use Placeholders.*
unfoldable pub use Signature.*
unfoldable pub use Catalog.*
unfoldable pub use Files.*
unfoldable pub use Message.*
