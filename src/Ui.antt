-- ===== src/Ui.antt =====
-- The package ui: the page shell of ui/shell.go and the renderer of ui/renderer.go.
mod Links
unfoldable pub use Links.*
pub mod Origins
mod Navigation
unfoldable pub use Navigation.*
pub mod Menus
pub mod Entries
mod Page
mod Templates
unfoldable pub use Page.*
unfoldable pub use Templates.*
pub mod Validation
pub mod Rendering
pub mod Tests
