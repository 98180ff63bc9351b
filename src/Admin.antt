-- ===== src/Admin.antt =====
-- internal/admin: the web management interface.
pub mod Session
pub mod Server
pub mod Auth
pub mod Probes
pub mod Targets
pub mod Campuses
mod Tests
