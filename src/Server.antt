-- ===== src/Server.antt =====
-- internal/server: the commands of a client on one connection.
pub mod Reply
pub mod World
pub mod Handlers
pub mod Options
pub mod Conn
pub mod Topics
pub mod Reports
pub mod Dispatch
