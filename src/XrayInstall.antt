-- ===== src/XrayInstall.antt =====
-- The installed versions of Xray (internal/xrayinstall).
pub mod Versions
pub mod Order
pub mod Jobs
pub mod Overlap
pub mod Commit
pub mod Kept
pub mod Back
pub mod Digest
pub mod Run
pub mod Checked
