-- ===== src/Portal.antt =====
-- internal/portal: the public pages.
pub mod OneShot
pub mod Limiter
pub mod Server
pub mod Register
