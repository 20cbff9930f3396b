-- ===== src/Service.antt =====
-- src/capacity/application: the services, each a transaction on the database.
pub mod Environment
pub mod Idempotency
pub mod Projection
pub mod Reserve
pub mod Release
pub mod Cancel
pub mod Frames
pub mod TreasuryEvent
pub mod Snapshot
pub mod Replays
pub mod Fingerprints
pub mod Delivery
pub mod Reconciliation
pub mod Recovery
pub mod Retention
pub mod Availability
