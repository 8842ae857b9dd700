-- ===== src/Proxy.antt =====
-- internal/proxy: the classification of upstream replies, usage accounting, server-sent events, and
-- the handlers that forward requests and fail over between keys.
pub mod Json
pub mod Header
pub mod Regex
pub mod Patterns
pub mod Reset
pub mod Classifier
pub mod Usage
pub mod Sse
pub mod Request
pub mod World
pub mod Stream
pub mod Inference
pub mod Failover
pub mod Models
pub mod Probe
