-- ===== src/Stack/Session.antt =====
-- The configuration in the hands of the API (internal/api/server.go): its handlers call the operations
-- on the live configuration, which stays as each call leaves it, also where the call fails.
pub mod Calls
pub mod Panel
pub mod Names
pub mod Admins
