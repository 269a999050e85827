-- ===== src/Group.antt =====
-- group/group.go: the membership workflow. The application's store is an interface over a state of
-- its own, and the Go context that is passed through is left out.
mod Defs
pub mod Workflow
pub mod Tests
unfoldable pub use Defs.*
