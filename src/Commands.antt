-- ===== src/Commands.antt =====
-- src/Commands
pub mod PollingScanStatus
pub mod RunRepeater
pub mod RunScan
mod Tests
