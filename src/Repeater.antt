-- ===== src/Repeater.antt =====
-- src/Repeater
pub mod Server
pub mod Launcher
pub mod Listeners
mod Tests
