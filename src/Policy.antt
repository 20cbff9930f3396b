-- ===== src/Policy.antt =====
-- src/capacity/domain/policies: the decisions of the service, as pure functions.
pub mod Reserve
pub mod Release
pub mod Cancel
pub mod Snapshot
