-- ===== src/Api.antt =====
-- internal/api: the endpoints that the probes call.
pub mod Errors
pub mod Limiter
pub mod Server
pub mod Authenticate
pub mod Push
pub mod Targets
pub mod Middleware
mod Tests
