-- ===== src/Protocol.antt =====
-- internal/protocol: the wire types, the measurement rules, the request rules and the dispatched
-- configuration of Protocol v1.
pub mod Errors
pub mod Types
pub mod Measurement
pub mod Config
pub mod Request
pub mod ConfigId
pub mod Decode
mod Tests
