-- ===== src/Admission.antt =====
-- core/admission: the host-aware circuit breaker. `Controller` has its state and its operations,
-- `Threshold` and `Decide` their theorems, `Parser` the reading of Prometheus text. The HTTP clients
-- are not modelled: a poll cycle takes what they return.
pub mod Controller
pub mod Parser
pub mod Threshold
pub mod Decide
mod Examples
