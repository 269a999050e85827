-- ===== src/Observability.antt =====
-- observability/tracing.go. OpenTelemetry, its exporter and its instrumentation packages are interfaces.
mod Calls
mod Construction
mod Packages
pub mod Ownership
pub mod Success
pub mod Wiring
pub mod Copying
pub mod Tests
unfoldable pub use Calls.*
unfoldable pub use Construction.*
unfoldable pub use Packages.*
