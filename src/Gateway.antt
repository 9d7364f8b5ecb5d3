-- ===== src/Gateway.antt =====
-- core/gateway/proxy.go, access.go and auth.go: the reverse proxy. `Paths`, `ClientIp` and `Usage`
-- are its helper functions, `Access` the access control, `State` and `Stages` the request handler's
-- state and steps, `Director` what is sent on, `Serve` the handler with what holds of it as a whole.
pub mod Header
pub mod Paths
pub mod ClientIp
pub mod Usage
pub mod Access
pub mod State
pub mod Director
pub mod Stages
pub mod Serve
mod Examples
