-- ===== src/Api.antt =====
-- src/capacity/api and src/auth: what answers a request.
pub mod ErrorFilter
pub mod Contract
pub mod Guards
pub mod Controller
pub mod Dto
pub mod Token
pub mod Caller
pub mod Access
pub mod Replays
