-- ===== src/Subscription.antt =====
-- What a subscription serves (internal/subscription).
pub mod Encode
pub mod Clash
pub mod Headers
pub mod Names
pub mod Serve
pub mod First
