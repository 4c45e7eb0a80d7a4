-- ===== src/Tests.antt =====
-- Examples that apply the theorems to concrete inputs.
mod Samples
pub mod Stack
mod Loops
pub mod Manager
mod Metrics
mod Sessions
mod Presence
mod Xray
mod Auth
mod Api
mod Install
mod Subscription
mod Plugins
