-- ===== src/Stream.antt =====
-- src/treasury: the messages of the treasury's topics, from their text to the database.
pub mod Classifier
pub mod Retry
pub mod Json
pub mod EventSchema
pub mod SnapshotSchema
pub mod Accepted
pub mod Handlers
pub mod Consumer
pub mod Publishing
pub mod Safety
pub mod Effects
pub mod Outage
