-- ===== src/Server.antt =====
-- internal/server: statistics, the session pool of a node, and what is built on them.
pub mod Stats
pub mod Session
pub mod Registry
pub mod Handshake
pub mod Listener
pub mod Contact
pub mod Forward
pub mod Plane
pub mod Status
pub mod Metrics
pub mod Examples
