-- ===== src/Api.antt =====
-- The HTTP interface of the panel (internal/api).
pub mod Gate
pub mod Store
pub mod Handlers
pub mod Users
pub mod Plugins
pub mod Settings
pub mod Actions
pub mod Safe
pub mod Locked
pub mod Reopened
pub mod Agree
pub mod Undone
pub mod SiteNames
pub mod Tidy
