-- ===== src/Security.antt =====
-- Field masking and its keys (src/security).
pub mod Kms
pub mod Rotation
pub mod Engine
pub mod Fields
pub mod Reveal
mod Tests
