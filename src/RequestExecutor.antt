-- ===== src/RequestExecutor.antt =====
-- src/RequestExecutor
pub mod Url
pub mod Certificates
pub mod Options
pub mod Request
pub mod Http
pub mod WebSocket
mod Tests
