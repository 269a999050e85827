-- ===== src/DurableFile.antt =====
-- durablefile/durablefile.go.
pub mod Locks
pub mod Replacing
