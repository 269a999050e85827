-- ===== src/Faq.antt =====
-- faq/faq.go: questions and answers, drafts and published entries. The application's store is an
-- interface over a state of its own; the Go context is left out.
mod Defs
pub mod Workflow
pub mod Tests
unfoldable pub use Defs.*
