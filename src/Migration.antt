-- ===== src/Migration.antt =====
-- migration/runner.go: the life of a migration runner around golang-migrate, which is an interface
-- over a state of its own. The mutex makes each method one step.
mod Defs
pub mod Lifecycle
pub mod Tests
unfoldable pub use Defs.*
