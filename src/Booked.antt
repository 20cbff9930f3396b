-- ===== src/Booked.antt =====
-- src/capacity/application: a program's local component and the reservations that it stands for.
pub mod Rows
pub mod Writes
pub mod Reserve
pub mod Release
pub mod Treasury
pub mod Snapshot
pub mod Reach
