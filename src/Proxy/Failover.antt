-- ===== src/Proxy/Failover.antt =====
-- What a request does across its loop over the keys, for `HandleInference` of
-- internal/proxy/service.go.
pub mod Answers
pub mod Storing
pub mod Forwarding
pub mod Calls
mod Rounds
pub mod Order
pub mod Requests
pub mod Limits
pub mod Decisions
pub mod Delivery
