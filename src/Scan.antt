-- ===== src/Scan.antt =====
-- src/Scan
pub mod Severity
pub mod Breakpoint
pub mod Polling
pub mod Config
mod Tests
