-- ===== src/Config.antt =====
-- src/Config
pub mod Rotation
mod Tests
