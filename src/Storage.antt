-- ===== src/Storage.antt =====
-- common/store: resources, snapshots and the manager that keeps them with the event log.
pub mod Meta
pub mod Snapshots
pub mod Manager
mod Tests
