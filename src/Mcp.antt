-- ===== src/Mcp.antt =====
-- src/Mcp
pub mod Redaction
pub mod Processes
pub mod RepeaterTools
mod Tests
