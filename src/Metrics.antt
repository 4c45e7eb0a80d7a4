-- ===== src/Metrics.antt =====
-- The in-memory time series of the panel (internal/metrics): a ring of samples.
mod Defs
pub mod Ring
unfoldable pub use Defs.*
