-- ===== src/DurableFile/Locks.antt =====
-- The registry of locks of durablefile/durablefile.go, one lock per destination, and its use by
-- goroutines whose steps interleave in any order.
mod Registry
mod Counting
pub mod Invariant
pub mod Moves
pub mod Exclusion
pub mod Refinement
pub mod Simulation
pub mod Tests
unfoldable pub use Registry.*
unfoldable pub use Counting.*
