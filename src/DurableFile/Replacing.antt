-- ===== src/DurableFile/Replacing.antt =====
-- The complete replacement of a file, of durablefile/durablefile.go.
mod Defs
mod Directories
pub mod Outcomes
pub mod Temporary
pub mod Checks
pub mod Parents
pub mod Atomic
pub mod Source
pub mod Handles
pub mod Frame
pub mod Leftovers
pub mod Healthy
pub mod Parts
pub mod Success
pub mod LeftoversTests
pub mod Tests
pub mod SuccessTests
unfoldable pub use Defs.*
unfoldable pub use Directories.*
