-- ===== src/Archive.antt =====
-- src/Archive
pub mod Validators
pub mod Parser
mod Tests
