-- ===== src/Links.antt =====
-- The share links of a user (internal/links/links.go).
pub mod Names
pub mod Make
pub mod Reach
