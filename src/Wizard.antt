-- ===== src/Wizard.antt =====
-- src/Wizard
pub mod Readline
mod Tests
