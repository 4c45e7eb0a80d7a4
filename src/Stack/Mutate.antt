-- ===== src/Stack/Mutate.antt =====
-- The operations on `*Config` (internal/stack/mutate.go). Each changes the configuration in place
-- and mostly ends in `Validate`, so it answers with the configuration as it then is, also where it
-- fails, and with its error.
pub mod Outcome
pub mod Users
pub mod Ports
pub mod FreePort
pub mod Admins
pub mod Listeners
pub mod Tunnels
pub mod Domains
