-- ===== src/Enforce.antt =====
-- Quota enforcement (internal/enforce).
mod Defs
pub mod Quota
pub mod Over
pub mod Sessions
pub mod Remaining
unfoldable pub use Defs.*
