-- ===== src/Utils.antt =====
-- src/Utils
pub mod Backoff
pub mod Wildcard
pub mod TlsErrors
pub mod ShellArgument
pub mod Pool
pub mod Chunks
pub mod Cluster
pub mod Arguments
pub mod Proxy
pub mod Traceroute
mod Tests
