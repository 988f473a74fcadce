-- ===== src/Session.antt =====
-- BBgrid_Server/session/server.go: the sessions of the clients and the server that holds them.
pub mod Pending
pub mod Messages
pub mod Protocol
pub mod ProxyKey
pub mod Relay
pub mod Server
pub mod Tracking
pub mod Samples
mod Tests
