-- ===== src/Usage.antt =====
-- Traffic accounting (internal/usage): counters read from Xray, and their scheduled resets.
mod Defs
pub mod Sync
pub mod Reset
pub mod Deadlines
pub mod Rolled
pub use Defs.*
