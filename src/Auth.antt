-- ===== src/Auth.antt =====
-- Who a request comes from (internal/auth): signed session tokens and bearer tokens.
pub mod Sessions
pub mod Bearer
