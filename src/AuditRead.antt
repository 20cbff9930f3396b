-- ===== src/AuditRead.antt =====
-- src/capacity/application/audit-read.service.ts: the queries of the audit views.
pub mod Order
pub mod Pages
pub mod Follow
pub mod Cursor
pub mod Doubles
pub mod Ledger
pub mod Reservations
