-- ===== src/Server.antt =====
-- Server message queues: xous/kernel/src/server.rs.
pub mod Types
pub mod Permissions
pub mod Ready
pub mod Queue
