-- ===== src/Failover.antt =====
-- The failover loop (internal/failover): which tunnel the proxy uses, decided from the health checks
-- of every tick.
mod Defs
pub mod Decide
pub mod Desired
pub mod ReadBack
pub mod Apply
pub mod Ticks
pub mod Manager
unfoldable pub use Defs.*
