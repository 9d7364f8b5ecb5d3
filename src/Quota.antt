-- ===== src/Quota.antt =====
-- core/gateway/quota.go and quota_*.go: per-user token quotas. `Backend` is the interface of
-- the counters, `Memory`, `Redis` and `Sqlite` implement it, `Build` chooses one of them, `Manager` is the
-- checks on top of any.
pub mod Backend
pub mod Memory
pub mod Manager
pub mod Keys
pub mod Redis
pub mod Sqlite
pub mod Build
mod Examples
