-- ===== src/Auth/Sessions.antt =====
-- auth/session.go. The session manager scs is an interface over a state of its own: the session data
-- of the request at hand, with the store behind it. Its wrapper `LoadAndSave`, which loads that data
-- before a request and commits it after, is left to the caller. Copies of roles and claims are the
-- values themselves, but in Sharing, Steps and Copies, where they lie on a heap that others write to.
mod Principals
mod Manager
mod Handlers
mod Config
pub mod Sharing
pub mod Steps
pub mod Copies
pub mod Access
pub mod Guards
pub mod SignedIn
pub mod Cookies
pub mod SharingTests
pub mod Tests
unfoldable pub use Principals.*
unfoldable pub use Manager.*
unfoldable pub use Handlers.*
unfoldable pub use Config.*
