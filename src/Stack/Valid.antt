-- ===== src/Stack/Valid.antt =====
-- What a configuration that passes `Validate` is like.
pub mod Stages
pub mod Table
pub mod Apart
pub mod Unique
