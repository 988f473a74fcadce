-- ===== src/Worker.antt =====
-- BBgrid_Server/workers/state.go: the state of the workers, with a table for each client that is online.
pub mod Table
pub mod State
pub mod Relays
pub mod Laws
pub mod Runs
pub mod Tokens
mod Tests
