-- ===== src/Stack.antt =====
-- The configuration of the control plane (internal/stack): its blocks, the defaults that are
-- applied when a field is read, `Validate`, and the operations that change it.
mod Defs
pub mod Effective
pub mod Text
pub mod Rules
pub mod Validate
pub mod Mutate
pub mod Valid
pub mod Session
pub mod Tokens
pub use Defs.*
