-- ===== src/Member.antt =====
-- member/member.go: profile rules and account changes. The account store is an interface over a
-- state of its own; `url.Parse` is a parameter; the Go context is left out.
mod Defs
mod Profiles
pub mod Normal
pub mod Accounts
pub mod Tests
unfoldable pub use Defs.*
unfoldable pub use Profiles.*
